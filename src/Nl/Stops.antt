-- ===== src/Nl/Stops.antt =====
-- Reads of any bytes that may panic, and what the parts of a message promise of them: whatever is read
-- is well formed, and so is written and read back.
use neli.Base.{ℕ, ◌+◌, ◌-◌, ◌^◌, ◌≤◌, ◌<◌, ◌≡◌, refl, arith, ◌⊎◌, inl, inr}
use neli.Base.{Bool-cases, leb, leb→le, Option, some, List, length}
use neli.Outcome.{ok, panic, continue, sub_or_panic, ◌>>=◌}
use neli.Buffering.{Libc, Buffering, All, IsByte}
use neli.Nl.{Nl, ReadsBuffer}
use neli.Nl.Ends.{Ended, Ends, Ends-pure, Ends-vec, Ends-uint, Ends-weaken}
use neli.Nl.Laws.{Fixed, Payload, uint_laws, vec_laws}

module _ ⦃b : Buffering⦄ where
  -- On any bytes a read panics, where `X` lets it, or ends in an error or in a value.
  pub record Stops (X : Type 0) {A : Type 0} (m : ReadsBuffer A) (h : Option ℕ) (left : ℕ)
      (Q : A → Option ℕ → ℕ → Type 0) : Type 0 where
    pub at :
        (f r : List ℕ)
        → length r ≡ left
        → All IsByte r
        → (X × ((m (b.reader f r h)).0 ≡ panic)) ⊎ Ended Q (m (b.reader f r h))

  pub of_Ends :
      {X A : Type 0} {m : ReadsBuffer A} {h : Option ℕ} {left : ℕ} {Q : A → Option ℕ → ℕ → Type 0}
      → Ends m h left Q
      → Stops X m h left Q
  of_Ends e = record { at = λ f r len v. inr (e.at f r len v) }

  pub Stops-bind :
      {X A B : Type 0} (m : ReadsBuffer A) (k : A → ReadsBuffer B) {h : Option ℕ} {left : ℕ}
      {Q : A → Option ℕ → ℕ → Type 0} {R : B → Option ℕ → ℕ → Type 0}
      → Stops X m h left Q
      → ((a : A) (h' : Option ℕ) (left' : ℕ) → Q a h' left' → Stops X (k a) h' left' R)
      → Stops X (m >>= k) h left R
  unfolding ◌>>=◌
  Stops-bind {X} m k {h} {left} {Q} {R} em ek = record {
    at = λ f r len v. go f r (em.at f r len v);
  }
    where
      go :
          (f r : List ℕ)
          → (X × ((m (b.reader f r h)).0 ≡ panic)) ⊎ Ended Q (m (b.reader f r h))
          → (X × ((continue (m (b.reader f r h)).0 k (m (b.reader f r h)).1).0 ≡ panic))
            ⊎ Ended R (continue (m (b.reader f r h)).0 k (m (b.reader f r h)).1)
      go f r (inl (x, stuck)) = inl (x, rw stuck refl)
      go f r (inr (inl (e, failed))) = inr (inl (e, rw failed refl))
      go f r (inr (inr l)) =
          rw l.result ((ek l.value l.hint (length l.rest) l.holds).at l.front l.rest refl l.bytes)

  pub Stops-silent :
      {X A B : Type 0} (m : ReadsBuffer A) (k : A → ReadsBuffer B) (a : A) {h h' : Option ℕ}
      {left : ℕ} {R : B → Option ℕ → ℕ → Type 0}
      → ((f r : List ℕ) → m (b.reader f r h) ≡ (ok a, b.reader f r h'))
      → Stops X (k a) h' left R
      → Stops X (m >>= k) h left R
  unfolding ◌>>=◌
  Stops-silent m k a quiet ek = record { at = λ f r len v. rw (quiet f r) (ek.at f r len v) }

  pub Stops-sub :
      (x y : ℕ) (h : Option ℕ) (left : ℕ)
      → Stops Unit (sub_or_panic x y) h left (λ d h' left'. (d + y ≡ x) × (h' ≡ h) × (left' ≡ left))
  Stops-sub x y h left = elim (Bool-cases (leb y x)) [
    | inl enough ↦
        rw enough (of_Ends (Ends-pure (x - y) (omega (arith, leb→le y x enough), refl, refl)))
    | inr short ↦ rw short (record { at = λ f r len v. inl (tt, refl) })
  ]

  -- A type of fixed width reads its width and gives a valid value.
  pub record FixedAny {A : Type 0} {t : Nl A} {w : ℕ} (tl : Fixed t w) : Type 0 where
    pub read :
        (h : Option ℕ) (left : ℕ)
        → Ends t.deserialize h left (λ a h' left'. tl.IsValid a × (h' ≡ h) × (left' + w ≡ left))

  -- A payload that is read with a hint is valid and of the size that the hint says. It takes at most
  -- that many bytes.
  pub record PayloadAny (X : Type 0) {A : Type 0} {p : Nl A} (pl : Payload p) : Type 0 where
    pub read :
        (n left : ℕ)
        → n < 2 ^ 32
        → Stops X p.deserialize
            (some n)
            left
            (λ a h' left'. pl.IsValid a × (p.size a ≡ n) × (left' ≤ left) × (left ≤ left' + n))

module _ ⦃c : Libc⦄ ⦃b : Buffering⦄ where
  abbrev pub uint_any : (w : ℕ) → FixedAny (uint_laws w)
  uint_any w = record { read = Ends-uint w }

  pub vec_any : {X : Type 0} → PayloadAny X vec_laws
  vec_any = record {
    read = λ n left small. of_Ends (
        Ends-weaken (Ends-vec n left)
          λ xs h left' (len, used). (tt, len, omega arith, omega arith));
  }
