-- ===== src/Nl/Ends.antt =====
-- Reads of any bytes: each ends in an error or in a value, and never in a panic. `Q` says what holds
-- of the value, of the hint that is left and of the number of bytes that are left.
use neli.Base.{
  ℕ, ◌+◌, ◌-◌, ◌^◌, zero, suc, ◌≤◌, ◌<◌, ◌≡◌, refl, arith, ◌⊎◌, inl, inr, Bool-cases, leb, leb→le,
}
use neli.Base.{Option, none, some, List, [], ◌∷◌, ◌++◌, length, take, drop, replicate}
use neli.Base.{length-append, length-replicate, length-take, length-drop, take-append-drop}
use neli.Outcome.{Result, ok, err, pure, continue, ◌>>=◌, checked_sub, ok_or}
use neli.Err.{DeError, de_of_io}
use neli.Buffering.{Libc, Buffering, All, IsByte}
use neli.Nl.{ReadsBuffer, alignto, strip}
use neli.Nl.Padding.{IsSmall, Reads-strip, strip_short}
use neli.Nl.Uint.{deserialize_uint, deserialize_uint_short, Reads-uint_bytes}
use neli.Nl.Bytes.{deserialize_vec, deserialize_vec_hinted}

All-take : (n : ℕ) (r : List ℕ) → All IsByte r → All IsByte (take n r)
All-take zero r v = tt
All-take (suc n) [] v = tt
All-take (suc n) (x ∷ r) (vx, v) = (vx, All-take n r v)

All-drop : (n : ℕ) (r : List ℕ) → All IsByte r → All IsByte (drop n r)
All-drop zero r v = v
All-drop (suc n) [] v = tt
All-drop (suc n) (x ∷ r) (vx, v) = All-drop n r v

le_or_lt : (m n : ℕ) → (m ≤ n) ⊎ (n < m)
le_or_lt zero n = inl (omega arith)
le_or_lt (suc m) zero = inr (omega arith)
le_or_lt (suc m) (suc n) = elim (le_or_lt m n) [
  | inl le ↦ inl (omega arith)
  | inr lt ↦ inr (omega arith)
]

module _ ⦃b : Buffering⦄ where
  pub record Left {A : Type 0} (Q : A → Option ℕ → ℕ → Type 0) (q : Result DeError A × b.ReadBuffer)
      : Type 0 where
    pub value : A
    pub front : List ℕ
    pub rest : List ℕ
    pub hint : Option ℕ
    pub result : q ≡ (ok value, b.reader front rest hint)
    pub bytes : All IsByte rest
    pub holds : Q value hint (length rest)

  abbrev pub Ended :
      {A : Type 0} → (A → Option ℕ → ℕ → Type 0) → Result DeError A × b.ReadBuffer → Type 0
  Ended Q q = ((e : DeError) × (q.0 ≡ err e)) ⊎ Left Q q

  pub record Ends {A : Type 0} (m : ReadsBuffer A) (h : Option ℕ) (left : ℕ)
      (Q : A → Option ℕ → ℕ → Type 0) : Type 0 where
    pub at : (f r : List ℕ) → length r ≡ left → All IsByte r → Ended Q (m (b.reader f r h))

  -- A read that gives nothing but an error.
  abbrev pub Nothing : {A : Type 0} → A → Option ℕ → ℕ → Type 0
  Nothing a h left = ⊥

  stopped :
      {A B : Type 0} (q : Result DeError A × b.ReadBuffer) (k : A → ReadsBuffer B) (e : DeError)
      → q.0 ≡ err e
      → (continue q.0 k q.1).0 ≡ err e
  stopped q k e h = rw h

  went_on :
      {A B : Type 0} (q : Result DeError A × b.ReadBuffer) (k : A → ReadsBuffer B)
      {R : B → Option ℕ → ℕ → Type 0} (a : A) (f r : List ℕ) (h : Option ℕ)
      → q ≡ (ok a, b.reader f r h)
      → Ended R (k a (b.reader f r h))
      → Ended R (continue q.0 k q.1)
  went_on q k a f r h e next = rw e next

  pub Ends-pure :
      {A : Type 0} {h : Option ℕ} {left : ℕ} {Q : A → Option ℕ → ℕ → Type 0} (a : A)
      → Q a h left
      → Ends (pure a) h left Q
  Ends-pure {h} {left} {Q} a holds = record {
    at = λ f r len v. inr (record {
      value = a;
      front = f;
      rest = r;
      hint = h;
      result = refl;
      bytes = v;
      holds = rw len holds;
    });
  }

  pub Ends-bind :
      {A B : Type 0} (m : ReadsBuffer A) (k : A → ReadsBuffer B) {h : Option ℕ} {left : ℕ}
      {Q : A → Option ℕ → ℕ → Type 0} {R : B → Option ℕ → ℕ → Type 0}
      → Ends m h left Q
      → ((a : A) (h' : Option ℕ) (left' : ℕ) → Q a h' left' → Ends (k a) h' left' R)
      → Ends (m >>= k) h left R
  unfolding ◌>>=◌
  Ends-bind m k {h} {left} {Q} {R} em ek = record { at = λ f r len v. go f r (em.at f r len v) }
    where
      go :
          (f r : List ℕ)
          → Ended Q (m (b.reader f r h))
          → Ended R (continue (m (b.reader f r h)).0 k (m (b.reader f r h)).1)
      go f r (inl (e, failed)) = inl (e, stopped (m (b.reader f r h)) k e failed)
      go f r (inr l) =
          went_on (m (b.reader f r h)) k l.value l.front l.rest l.hint l.result
            ((ek l.value l.hint (length l.rest) l.holds).at l.front l.rest refl l.bytes)

  pub Ends-weaken :
      {A : Type 0} {m : ReadsBuffer A} {h : Option ℕ} {left : ℕ} {Q R : A → Option ℕ → ℕ → Type 0}
      → Ends m h left Q
      → ((a : A) (h' : Option ℕ) (left' : ℕ) → Q a h' left' → R a h' left')
      → Ends m h left R
  Ends-weaken {A} {m} {h} {left} {Q} {R} e weaker = record {
    at = λ f r len v. go (m (b.reader f r h)) (e.at f r len v);
  }
    where
      go : (q : Result DeError A × b.ReadBuffer) → Ended Q q → Ended R q
      go q (inl failed) = inl failed
      go q (inr l) = inr (record {
        value = l.value;
        front = l.front;
        rest = l.rest;
        hint = l.hint;
        result = l.result;
        bytes = l.bytes;
        holds = weaker l.value l.hint (length l.rest) l.holds;
      })

  -- A step that reads nothing.
  pub Ends-silent :
      {A B : Type 0} (m : ReadsBuffer A) (k : A → ReadsBuffer B) (a : A) {h h' : Option ℕ}
      {left : ℕ} {R : B → Option ℕ → ℕ → Type 0}
      → ((f r : List ℕ) → m (b.reader f r h) ≡ (ok a, b.reader f r h'))
      → Ends (k a) h' left R
      → Ends (m >>= k) h left R
  unfolding ◌>>=◌
  Ends-silent m k a quiet ek = record { at = λ f r len v. rw (quiet f r) (ek.at f r len v) }

  pub Ends-uint :
      (w : ℕ) (h : Option ℕ) (left : ℕ)
      → Ends
          (deserialize_uint w)
          h
          left
          (λ a h' left'. (a < 256 ^ w) × (h' ≡ h) × (left' + w ≡ left))
  Ends-uint w h left = record { at = λ f r e v. go f r e v (le_or_lt w (length r)) }
    where
      go :
          (f r : List ℕ)
          → length r ≡ left
          → All IsByte r
          → (w ≤ length r) ⊎ (length r < w)
          → Ended
              (λ a h' left'. (a < 256 ^ w) × (h' ≡ h) × (left' + w ≡ left))
              (deserialize_uint w (b.reader f r h))
      go f r e v (inl enough) =
          let len : length (take w r) ≡ w = omega (arith, length-take w r) in
          let read =
            rw (len, take-append-drop w r) at ((Reads-uint_bytes (take w r) h).at f (drop w r)) in
          inr (record {
            value = b.decode (take w r);
            front = f ++ take w r;
            rest = drop w r;
            hint = h;
            result = read;
            bytes = All-drop w r v;
            holds = (
              rw len at (b.decode-lt (take w r) (All-take w r v)),
              refl,
              omega (arith, length-drop w r),
            );
          })
      go f r e v (inr short) = inl (de_of_io b.eof, deserialize_uint_short w f r h short)

  -- With a hint, a vector of bytes has just so many.
  pub Ends-vec :
      (n left : ℕ)
      → Ends deserialize_vec (some n) left (λ xs h left'. (length xs ≡ n) × (left' ≡ left - n))
  Ends-vec n left = record {
    at = λ f r e v. inr (record {
      value = take n r ++ replicate (n - length (take n r)) 0;
      front = f ++ take n r;
      rest = drop n r;
      hint = none;
      result = deserialize_vec_hinted n f r;
      bytes = All-drop n r v;
      holds = (
        omega (
          arith,
          length-append (take n r) (replicate (n - length (take n r)) 0),
          length-replicate {A = ℕ} (n - length (take n r)) 0,
          length-take n r,
        ),
        omega (arith, length-drop n r),
      );
    });
  }

  pub Ends-ok_or :
      {A : Type 0} (o : Option A) (e : DeError) (h : Option ℕ) (left : ℕ)
      → Ends (ok_or o e) h left (λ _ h' left'. (h' ≡ h) × (left' ≡ left))
  Ends-ok_or none e h left = record { at = λ f r len v. inl (e, refl) }
  Ends-ok_or (some a) e h left = Ends-pure a (refl, refl)

  -- A checked subtraction.
  pub Ends-checked_sub :
      (x y : ℕ) (e : DeError) (h : Option ℕ) (left : ℕ)
      → Ends
          (ok_or (checked_sub x y) e)
          h
          left
          (λ d h' left'. (d + y ≡ x) × (h' ≡ h) × (left' ≡ left))
  Ends-checked_sub x y e h left = elim (Bool-cases (leb y x)) [
    | inl enough ↦ rw enough (Ends-pure (x - y) (omega (arith, leb→le y x enough), refl, refl))
    | inr short ↦ rw short (record { at = λ f r len v. inl (e, refl) })
  ]

module _ ⦃c : Libc⦄ ⦃b : Buffering⦄ (size : ℕ) (small : IsSmall size) where
  -- Stripping reads the padding, or is an error where the buffer ends before.
  pub Ends-strip :
      (h : Option ℕ) (left : ℕ)
      → Ends
          (strip size (alignto size))
          h
          left
          (λ _ h' left'. (h' ≡ h) × (left' + (alignto size - size) ≡ left))
  Ends-strip h left = record {
    at = λ f r e v. go f r e v (le_or_lt (alignto size - size) (length r));
  }
    where
      go :
          (f r : List ℕ)
          → length r ≡ left
          → All IsByte r
          → (alignto size - size ≤ length r) ⊎ (length r < alignto size - size)
          → Ended
              (λ _ h' left'. (h' ≡ h) × (left' + (alignto size - size) ≡ left))
              (strip size (alignto size) (b.reader f r h))
      go f r e v (inl enough) =
          let n = alignto size - size in
          let len : length (take n r) ≡ n = omega (arith, length-take n r) in
          inr (record {
            value = tt;
            front = f ++ take n r;
            rest = drop n r;
            hint = h;
            result =
                rw (take-append-drop n r) at
                  ((Reads-strip size small h (take n r) len).at f (drop n r));
            bytes = All-drop n r v;
            holds = (refl, omega (arith, length-drop n r));
          })
      go f r e v (inr short) = inl (de_of_io b.eof, strip_short size small h f r short)
