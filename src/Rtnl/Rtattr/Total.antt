-- ===== src/Rtnl/Rtattr/Total.antt =====
-- Routing attributes read from any bytes.
use neli.Base.{ℕ, zero, suc, ◌+◌, ◌-◌, ◌^◌, ◌≤◌, ◌<◌, ◌≡◌, refl, arith, lt→ltb, ap}
use neli.Base.{Bool, if◌then◌else◌, Option, none, some, List, [], ◌∷◌, inl}
use neli.Outcome.{ok, ok_or, checked_sub, ◌>>=◌, pure}
use neli.Buffering.{Libc, Buffering, All}
use neli.Nl.{Nl, ReadsBuffer, alignto}
use neli.Nl.Ends.{Ends-bind, Ends-pure, Ends-uint, Ends-strip, Ends-checked_sub}
use neli.Nl.Stops.{Stops, of_Ends, Stops-bind, Stops-silent, FixedAny, PayloadAny}
use neli.Nl.Padding.{alignto_bounds}
use neli.Nl.Laws.{Fixed, Payload}
use neli.Rtnl.Rtattr
use neli.Rtnl.Rtattr.{Rtattr, Rtattrs, new, invalid_size, overflowed}
use neli.Rtnl.Rtattr.RoundTrip.{IsValid}
use mathlib.Core.Path.{fun_ext}

module _ ⦃c : Libc⦄ ⦃b : Buffering⦄ {T P X : Type 0} {t : Nl T} {p : Nl P} {tl : Fixed t 2}
    {pl : Payload p} (ta : FixedAny tl) (pa : PayloadAny X pl) where
  -- What holds of a routing attribute that was read with `left` bytes before it, and `left'` after it.
  pub record IsAttribute (left : ℕ) (self : Rtattr T P) (left' : ℕ) : Type 0 where
    pub attribute_IsValid : IsValid tl pl self
    pub at_least : left' + 4 ≤ left
    pub at_most : left ≤ left' + Rtattr.asize t p self

  read-IsAttribute :
      (len d : ℕ) (ty : T) (payload : P) (left4 left5 left : ℕ)
      → len < 2 ^ 16
      → tl.IsValid ty
      → pl.IsValid payload
      → d + (2 + t.size ty) ≡ len
      → p.size payload ≡ d
      → (left4 + 4 ≤ left) × (left ≤ left4 + 4 + d)
      → left5 + (alignto (2 + t.size ty + p.size payload) - (2 + t.size ty + p.size payload))
        ≡ left4
      → IsAttribute left (record { rta_len = len; rta_type = ty; rta_payload = payload }) left5
  unfolding Rtattr.size
  read-IsAttribute len d ty payload left4 left5 left fits tv pv sum sized bounds used =
      let aligned = alignto_bounds (2 + t.size ty + p.size payload) (omega arith) in
      record {
        attribute_IsValid = record {
          len_is_size = omega arith;
          len_fits = fits;
          type_IsValid = tv;
          payload_IsValid = pv;
        };
        at_least = omega (arith, aligned);
        at_most = omega (arith, aligned, tl.sized ty);
      }

  rtattr-IsAttribute :
      (h : Option ℕ) (left : ℕ)
      → Stops X (Rtattr.deserialize t p) h left (λ self h'. IsAttribute left self)
  unfolding Rtattr.deserialize Rtattr.size
  rtattr-IsAttribute h left =
      Stops-bind _ _ (of_Ends (Ends-uint 2 h left)) λ len h1 left1 (fits, same1, used1).
        Stops-bind _ _ (of_Ends (ta.read h1 left1)) λ ty h2 left2 (tv, same2, used2).
          Stops-bind _ _
            (of_Ends (Ends-checked_sub len (2 + t.size ty) (invalid_size len) h2 left2))
            λ d h3 left3 (sum, same3, used3).
              Stops-silent _ _ tt (λ f r. rw (b.set_size_hint_lem f r h3 d))
                (Stops-bind _ _ (pa.read d left3 (omega arith))
                  λ payload h4 left4 (pv, sized, less, most). of_Ends (
                    Ends-bind _ _
                      (Ends-strip (2 + t.size ty + p.size payload) (omega arith) h4 left4)
                      λ u h5 left5 (same5, used5). Ends-pure _ (
                        read-IsAttribute len d ty payload left4 left5 left fits tv pv sum sized
                          (omega arith) used5)))

  -- What holds of a list that was read with the hint `n` and `left` bytes before it, and `left'`
  -- after it.
  pub record AreAttributes (n left : ℕ) (self : List (Rtattr T P)) (left' : ℕ) : Type 0 where
    pub attributes_IsValid : All (IsValid tl pl) self
    pub size_is_hint : Rtattr.size_items t p self ≡ n
    pub less : left' ≤ left
    pub at_most : left ≤ left' + n

  abbrev round : ℕ → ℕ → ReadsBuffer (List (Rtattr T P))
  round fuel size_hint = do
    attr ← Rtattr.deserialize t p
    size_hint' ←
        ok_or (checked_sub size_hint (Rtattr.asize t p attr))
          (overflowed (Rtattr.size t p attr) size_hint)
    rest ← Rtattr.deserialize_loop t p fuel size_hint'
    pure (attr ∷ rest)

  loop_round : (fuel n : ℕ) → 0 < n → Rtattr.deserialize_loop t p (suc fuel) n ≡ round fuel n
  unfolding Rtattr.deserialize_loop
  loop_round fuel n h =
      fun_ext
        λ mem. ap (λ (go : Bool). if go then round fuel n mem else (ok [], mem)) (lt→ltb 0 n h)

  -- Fuel above the hint is enough.
  loop-Stops :
      (fuel n : ℕ) (h : Option ℕ) (left : ℕ)
      → n < fuel
      → Stops X (Rtattr.deserialize_loop t p fuel n) h left (λ xs h'. AreAttributes n left xs)
  unfolding Rtattr.size_items
  loop-Stops zero n h left enough = absurd (omega arith)
  loop-Stops (suc fuel) zero h left enough =
      unfold Rtattr.deserialize_loop in
      of_Ends (
        Ends-pure [] (record {
          attributes_IsValid = tt;
          size_is_hint = refl;
          less = omega arith;
          at_most = omega arith;
        }))
  loop-Stops (suc fuel) (suc n) h left enough = rw (loop_round fuel (suc n) (omega arith)) (
      Stops-bind _ _ (rtattr-IsAttribute h left) λ a h1 left1 valid.
        Stops-bind _ _
          (of_Ends (
            Ends-checked_sub (suc n) (Rtattr.asize t p a) (overflowed (Rtattr.size t p a) (suc n))
              h1 left1))
          λ d h2 left2 (sum, same, used).
            Stops-bind _ _
              (loop-Stops fuel d h2 left2 (omega (arith, valid.at_least, valid.at_most)))
              λ rest h3 left3 valids. of_Ends (
                Ends-pure (a ∷ rest) (record {
                  attributes_IsValid = (valid.attribute_IsValid, valids.attributes_IsValid);
                  size_is_hint = omega (arith, valids.size_is_hint);
                  less = omega (arith, valid.at_least, valids.less);
                  at_most = omega (arith, valid.at_most, valids.at_most);
                })))

  -- What holds of the result with a hint; without one there is none.
  abbrev pub AsHinted : Option ℕ → ℕ → Rtattrs T P → ℕ → Type 0
  AsHinted none left self left' = ⊥
  AsHinted (some n) left self left' = AreAttributes n left self.items left'

  -- On any bytes, with any hint, reading routing attributes of a type two bytes wide, whose types and
  -- payloads are valid whenever they are read and the payloads of the size of their hint, ends in an
  -- error, as it does without a hint, or in attributes that are all well formed and with their padding
  -- as many bytes as the hint says, of which no more are taken from the buffer: it does not go on for
  -- ever, and panics only where reading a payload may.
  pub rtattrs_total :
      (h : Option ℕ) (left : ℕ)
      → Stops X (Rtattr.deserialize_all t p) h left (λ self h'. AsHinted h left self)
  unfolding Rtattr.deserialize_all
  rtattrs_total none left =
      Stops-silent _ _ none {h' = none} (λ f r. rw (b.take_size_hint_lem f r none))
        (of_Ends (
          Ends-bind _ _ {Q = λ _ _ _. ⊥} (record { at = λ f r len v. inl (_, refl) })
            λ n h' left' impossible. absurd impossible))
  rtattrs_total (some n) left =
      Stops-silent _ _ (some n) {h' = none} (λ f r. rw (b.take_size_hint_lem f r (some n)))
        (Stops-silent _ _ n (λ f r. refl)
          (Stops-bind _ _ (loop-Stops (suc n) n none left (omega arith))
            λ xs h' left' valid. of_Ends (Ends-pure (new xs) valid)))
