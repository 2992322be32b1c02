-- ===== src/Nlattr/Total.antt =====
-- Lists of attributes read from any bytes, with a hint and without.
use neli.Base.{ℕ, zero, suc, ◌+◌, ◌≤◌, ◌<◌, ◌≡◌, refl, arith, ◌⊎◌, inl, inr, true, false, lt→ltb}
use neli.Base.{Option, none, some, List, [], ◌∷◌, length}
use neli.Outcome.{pure, ◌>>=◌}
use neli.Buffering.{Libc, Buffering, All}
use neli.Nl.{Nl, ReadsBuffer}
use neli.Nl.Ends.{Ends, Ends-bind, Ends-pure, Ends-checked_sub}
use neli.Nl.Stops.{Stops, of_Ends, Stops-bind, Stops-silent, FixedAny, PayloadAny}
use neli.Nl.Laws.{Fixed, Payload}
use neli.Nlattr
use neli.Nlattr.{Nlattr, hint_left, goes_on, loop_fuel}
use neli.Nlattr.RoundTrip.{IsValid}
use neli.Nlattr.Lists.{asize_pos}
use neli.Nlattr.AnyBytes.{nlattr-IsAttribute}

module _ ⦃b : Buffering⦄ where
  -- The room that bounds the rounds: the hint, or without one the bytes left.
  abbrev room : Option ℕ → ℕ → ℕ
  room (some n) left = n
  room none left = left

  -- With a hint, the attributes take just as many bytes.
  abbrev pub Sums : Option ℕ → ℕ → Type 0
  Sums (some n) total = total ≡ n
  Sums none total = Unit

  record Smaller (size_hint : Option ℕ) (taken left : ℕ) (size_hint' : Option ℕ) (left' : ℕ)
      : Type 0 where
    less : room size_hint' left' < room size_hint left
    sums : (total : ℕ) → Sums size_hint' total → Sums size_hint (taken + total)

  -- A round leaves less room.
  hint_left-Smaller :
      (size_hint : Option ℕ) (taken : ℕ) (h : Option ℕ) (left' left : ℕ)
      → 0 < room size_hint left
      → 0 < taken
      → left' < left
      → Ends
          (hint_left size_hint taken)
          h
          left'
          (λ size_hint' h' left''. (left'' ≡ left') × Smaller size_hint taken left size_hint' left')
  hint_left-Smaller none taken h left' left some_room pos less =
      Ends-pure none (refl, record { less = less; sums = λ total u. tt })
  hint_left-Smaller (some zero) taken h left' left some_room pos less = absurd (omega arith)
  hint_left-Smaller (some (suc n)) taken h left' left some_room pos less =
      rw (lt→ltb 0 (suc n) (omega arith)) (
        Ends-bind _ _ (Ends-checked_sub (suc n) taken _ h left') λ d h' left'' (sum, same, used).
          Ends-pure (some d) (used, record { less = omega arith; sums = λ total e. omega arith }))

  goes_on_cases :
      (size_hint : Option ℕ) (f r : List ℕ) (h : Option ℕ)
      → ((goes_on size_hint (b.reader f r h) ≡ false) × Sums size_hint 0)
        ⊎ ((goes_on size_hint (b.reader f r h) ≡ true) × (0 < room size_hint (length r)))
  goes_on_cases (some zero) f r h = inl (refl, refl)
  goes_on_cases (some (suc n)) f r h = inr (lt→ltb 0 (suc n) (omega arith), omega arith)
  goes_on_cases none f [] h = inl (rw (b.at_end_nil f h) refl, tt)
  goes_on_cases none f (x ∷ r) h = inr (rw (b.at_end_cons f r x h) refl, omega arith)

  enough_fuel :
      (h : Option ℕ) (f r : List ℕ) (left : ℕ)
      → length r ≡ left
      → loop_fuel h (b.reader f r none) ≡ suc (room h left)
  enough_fuel (some n) f r left len = refl
  enough_fuel none f r left len = rw (b.left_lem f r none, len) refl

module _ ⦃c : Libc⦄ ⦃b : Buffering⦄ {T P : Type 0} {t : Nl T} {p : Nl P} {tl : Fixed t 2}
    {pl : Payload p} (ta : FixedAny tl) (pa : PayloadAny Unit pl) where
  -- What holds of attributes that were read with the hint `size_hint` and `left` bytes before them,
  -- and `left'` after them.
  pub record AreAttributes (size_hint : Option ℕ) (left : ℕ) (self : List (Nlattr T P)) (left' : ℕ)
      : Type 0 where
    pub attributes_IsValid : All (IsValid tl pl) self
    pub sums : Sums size_hint (Nlattr.asize_all t p self)
    pub less : left' ≤ left
    pub at_most : left ≤ left' + Nlattr.asize_all t p self

  abbrev round : ℕ → Option ℕ → ReadsBuffer (List (Nlattr T P))
  round fuel size_hint = do
    next ← Nlattr.deserialize t p
    size_hint' ← hint_left size_hint (Nlattr.asize t p next)
    rest ← Nlattr.deserialize_loop t p fuel size_hint'
    pure (next ∷ rest)

  round-Stops :
      (fuel : ℕ) (size_hint h : Option ℕ) (left : ℕ)
      → 0 < room size_hint left
      → room size_hint left < suc fuel
      → ((size_hint' h' : Option ℕ) (left' : ℕ)
          → room size_hint' left' < fuel
          → Stops Unit
              (Nlattr.deserialize_loop t p fuel size_hint')
              h'
              left'
              (λ xs h''. AreAttributes size_hint' left' xs))
      → Stops Unit (round fuel size_hint) h left (λ xs h'. AreAttributes size_hint left xs)
  unfolding Nlattr.asize_all
  round-Stops fuel size_hint h left pos enough later =
      Stops-bind _ _ (nlattr-IsAttribute ta pa h left) λ a h1 left1 valid.
        Stops-bind _ _
          (of_Ends (
            hint_left-Smaller size_hint (Nlattr.asize t p a) h1 left1 left pos
              (asize_pos tl pl a valid.attribute_IsValid) (omega (arith, valid.at_least))))
          λ size_hint' h2 left2 (same, smaller).
            Stops-bind _ _ (later size_hint' h2 left2 (rw same (omega (arith, smaller.less))))
              λ rest h3 left3 valids. of_Ends (
                Ends-pure (a ∷ rest) (record {
                  attributes_IsValid = (valid.attribute_IsValid, valids.attributes_IsValid);
                  sums = smaller.sums _ valids.sums;
                  less = omega (arith, valid.at_least, valids.less);
                  at_most = omega (arith, valid.at_most, valids.at_most);
                }))

  loop-Stops :
      (fuel : ℕ) (size_hint h : Option ℕ) (left : ℕ)
      → room size_hint left < fuel
      → Stops Unit
          (Nlattr.deserialize_loop t p fuel size_hint)
          h
          left
          (λ xs h'. AreAttributes size_hint left xs)
  unfolding Nlattr.deserialize_loop Nlattr.asize_all
  loop-Stops zero size_hint h left enough = absurd (omega arith)
  loop-Stops (suc fuel) size_hint h left enough = record {
    at = λ f r len v. elim (goes_on_cases size_hint f r h) [
      | inl (over, done) ↦ rw over (
          (of_Ends (
              Ends-pure [] (record {
                attributes_IsValid = tt;
                sums = done;
                less = omega arith;
                at_most = omega arith;
              }))).at
            f r len v)
      | inr (more, pos) ↦ rw more (
          (round-Stops fuel size_hint h left (rw len at pos) enough (loop-Stops fuel)).at f r len v)
    ];
  }

  -- On any bytes, with a hint or without one, reading attributes of a type two bytes wide, whose types
  -- and payloads are valid whenever they are read and the payloads of the size of their hint, panics,
  -- or ends in an error, or in attributes that are all well formed: it does not go on for ever. With a
  -- hint the attributes and their padding are as many bytes as it says, and no more than these are
  -- taken from the buffer.
  pub nlattrs_total :
      (h : Option ℕ) (left : ℕ)
      → Stops Unit (Nlattr.deserialize_all t p) h left (λ xs h'. AreAttributes h left xs)
  unfolding Nlattr.deserialize_all
  nlattrs_total h left =
      Stops-silent _ _ h {h' = none} (λ f r. rw (b.take_size_hint_lem f r h))
        (record {
          at = λ f r len v.
              rw (enough_fuel h f r left len)
                ((loop-Stops (suc (room h left)) h none left (omega arith)).at f r len v);
        })
