-- ===== src/Consts/Laws.antt =====
-- Laws of the conversions that `impl_var!` makes.
use neli.Base.{ℕ, ◌^◌, ◌<◌, ◌≡◌, ◌≢◌, ◌⊎◌, inl, inr, refl, sym, ap, subst, ◌==◌, ==_iff, ==_refl}
use neli.Base.{Bool-cases, List, [], ◌∷◌, Option}
use neli.Buffering.{Libc, Buffering, All}
use neli.Nl.Runs.{Writes, Reads, Reads-last, Reads-pure}
use neli.Nl.Uint.{Writes-uint, Reads-uint}
use neli.Nl.Ends.{Ends-bind, Ends-uint, Ends-pure}
use neli.Nl.Laws.{Fixed}
use neli.Nl.Stops.{FixedAny}
use neli.Consts.{ImplVar, from_value, first_arm, serialize_var, deserialize_var, var}

module _ {E : Type 0} (m : ImplVar E) (kept : (v : ℕ) → m.into (m.unrecognized_variant v) ≡ v) where
  into-first_arm : (xs : List E) (v : ℕ) → m.into (first_arm m xs v) ≡ v
  unfolding first_arm
  into-first_arm [] v = kept v
  into-first_arm (x ∷ xs) v = elim (Bool-cases (v == m.into x)) [
    | inl same ↦ rw same (sym ((==_iff v (m.into x)).0 same))
    | inr other ↦ rw other (into-first_arm xs v)
  ]

  -- Where the unrecognized variant keeps its integer, an integer that is read into an enum and
  -- converted back is the same integer.
  pub into-from_value : (v : ℕ) → m.into (from_value m v) ≡ v
  unfolding from_value
  into-from_value v = into-first_arm m.variants v

module _ {E : Type 0} (m : ImplVar E) where
  -- Variants that come earlier in the list have other values.
  abbrev pub Distinct : List E → Type 0
  Distinct [] = Unit
  Distinct (x ∷ xs) = All (λ y. m.into y ≢ m.into x) xs × Distinct xs

  abbrev pub Among : E → List E → Type 0
  Among e [] = ⊥
  Among e (x ∷ xs) = (e ≡ x) ⊎ Among e xs

  All-Among : (P : E → Type 0) (e : E) (xs : List E) → All P xs → Among e xs → P e
  All-Among P e [] all a = absurd a
  All-Among P e (x ∷ xs) (px, all) (inl same) = subst P (sym same) px
  All-Among P e (x ∷ xs) (px, all) (inr a) = All-Among P e xs all a

  first_arm-into : (xs : List E) (e : E) → Distinct xs → Among e xs → first_arm m xs (m.into e) ≡ e
  unfolding first_arm
  first_arm-into [] e d a = absurd a
  first_arm-into (x ∷ xs) e (away, d) (inl same) = rw (← same) (rw (==_refl (m.into e)))
  first_arm-into (x ∷ xs) e (away, d) (inr a) = elim (Bool-cases (m.into e == m.into x)) [
    | inl clash ↦
        absurd (
          All-Among (λ y. m.into y ≢ m.into x) e xs away a ((==_iff (m.into e) (m.into x)).0 clash))
    | inr other ↦ rw other (first_arm-into xs e d a)
  ]

  -- Where the constants of the listed variants are distinct, a listed variant survives the conversion
  -- to its integer and back.
  pub from_value-into :
      (e : E) → Distinct m.variants → Among e m.variants → from_value m (m.into e) ≡ e
  unfolding from_value
  from_value-into e d a = first_arm-into m.variants e d a

  first_arm_unknown :
      (xs : List E) (v : ℕ)
      → All (λ x. v ≢ m.into x) xs
      → first_arm m xs v ≡ m.unrecognized_variant v
  unfolding first_arm
  first_arm_unknown [] v away = refl
  first_arm_unknown (x ∷ xs) v (other, away) = elim (Bool-cases (v == m.into x)) [
    | inl same ↦ absurd (other ((==_iff v (m.into x)).0 same))
    | inr e ↦ rw e (first_arm_unknown xs v away)
  ]

  -- An integer that is no listed variant's becomes the unrecognized variant of that integer.
  pub from_value_unknown :
      (v : ℕ) → All (λ x. v ≢ m.into x) m.variants → from_value m v ≡ m.unrecognized_variant v
  unfolding from_value
  from_value_unknown v away = first_arm_unknown m.variants v away

module _ ⦃c : Libc⦄ ⦃b : Buffering⦄ {E : Type 0} (m : ImplVar E) where
  -- The variants that their integer determines, and that it holds.
  abbrev pub IsEncodable : E → Type 0
  IsEncodable e = (m.into e < 256 ^ m.width) × (from_value m (m.into e) ≡ e)

  pub Writes-var : (e : E) → Writes (serialize_var m e) (b.encode m.width (m.into e))
  unfolding serialize_var
  Writes-var e = Writes-uint m.width (m.into e)

  pub Reads-var :
      (e : E) (h : Option ℕ)
      → IsEncodable e
      → Reads (deserialize_var m) h (b.encode m.width (m.into e)) e h
  unfolding deserialize_var
  Reads-var e h v = Reads-last _ _ (Reads-uint m.width (m.into e) h v.0) (rw v.1 (Reads-pure e))

  abbrev pub var_laws : Fixed (var m) m.width
  var_laws = record {
    IsValid = IsEncodable;
    bytes = λ e. b.encode m.width (m.into e);
    length_bytes = λ e. b.length-encode m.width (m.into e);
    sized = λ _. refl;
    writes = Writes-var;
    reads = Reads-var;
  }

module _ ⦃c : Libc⦄ ⦃b : Buffering⦄ {E : Type 0} (m : ImplVar E)
    (kept : (v : ℕ) → m.into (m.unrecognized_variant v) ≡ v) where
  pub from_value-IsEncodable : (v : ℕ) → v < 256 ^ m.width → IsEncodable m (from_value m v)
  from_value-IsEncodable v fits =
      let same = into-from_value m kept v in (rw same fits, ap (from_value m) same)

  -- A variant that is read from any bytes is written as it was read.
  pub var_any : FixedAny (var_laws m)
  unfolding deserialize_var
  var_any = record {
    read = λ h left. Ends-bind _ _ (Ends-uint m.width h left) λ v h' left' (fits, same, used).
        Ends-pure (from_value m v) (from_value-IsEncodable v fits, same, used);
  }
