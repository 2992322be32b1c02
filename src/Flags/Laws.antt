-- ===== src/Flags/Laws.antt =====
-- A flag word that is split into flags and folded again is the same word.
use neli.Base.{ℕ, zero, suc, ◌+◌, ◌*◌, ◌/◌, ◌%◌, ◌^◌, ◌<◌, ◌≡◌, refl, sym, ap, ◌∙◌, arith}
use neli.Base.{
  ◌≢◌, ◌⊎◌, Bool, true, false, bit_and, bit_or, ◌==◌, ==_iff, if◌then◌else◌, Bool-cases, inl, inr,
  List, ◌∷◌,
}
use neli.Base.Bits.{bit_and_bit, bit_or_bit}
use neli.Consts.{ImplVar, from_value}
use neli.Consts.Laws.{into-from_value}
use neli.Flags.{fold_flags, flags_from}
use native.Mathlib.Nat.{
  add-mul-mod_self_right, pow-suc, one-le-pow, div-add-mod, mod-lt, add-zero, mod-eq_of_lt,
}
use native.Mathlib.Numerals.{add-one}

bit_range : (i x : ℕ) → x % 2 ^ i < 2 ^ i
bit_range i x = mod-lt x (one-le-pow i 2 (omega arith))

bit_split : (i x : ℕ) → x ≡ x % 2 ^ i + x / 2 ^ i % 2 * 2 ^ i + x / 2 ^ i / 2 * 2 ^ suc i
bit_split i x = omega (
  arith,
  div-add-mod x (2 ^ i),
  ap (λ (t : ℕ). t * 2 ^ i) (div-add-mod (x / 2 ^ i) 2),
  ap (λ (t : ℕ). x / 2 ^ i / 2 * t) (pow-suc 2 i),
)

low_range : (i x : ℕ) → x % 2 ^ i + x / 2 ^ i % 2 * 2 ^ i < 2 ^ suc i
low_range i x = bounded (x / 2 ^ i % 2) (omega arith)
  where
    bounded : (d : ℕ) → d < 2 → x % 2 ^ i + d * 2 ^ i < 2 ^ suc i
    bounded zero h = omega (arith, bit_range i x, pow-suc 2 i)
    bounded (suc zero) h = omega (arith, bit_range i x, pow-suc 2 i)
    bounded (suc (suc d)) h = absurd (omega arith)

-- The low `i + 1` bits are the low `i` bits and the bit `i`.
next_bit : (i x : ℕ) → x % 2 ^ suc i ≡ x % 2 ^ i + x / 2 ^ i % 2 * 2 ^ i
next_bit i x =
    ap (λ (t : ℕ). t % 2 ^ suc i) (bit_split i x)
    ∙ add-mul-mod_self_right (x % 2 ^ i + x / 2 ^ i % 2 * 2 ^ i) (x / 2 ^ i / 2) (2 ^ suc i)
    ∙ mod-eq_of_lt (low_range i x)

-- The test of the loop finds the bit.
bit_set : (i x : ℕ) → bit_and (2 ^ i) x ≡ 2 ^ i → x % 2 ^ suc i ≡ x % 2 ^ i + 2 ^ i
bit_set i x h = omega (arith, next_bit i x, bit_and_bit i x)

bit_clear : (i x : ℕ) → bit_and (2 ^ i) x ≢ 2 ^ i → x % 2 ^ suc i ≡ x % 2 ^ i
bit_clear i x h = digit (x / 2 ^ i % 2) refl (omega arith)
  where
    digit : (d : ℕ) → x / 2 ^ i % 2 ≡ d → d < 2 → x % 2 ^ suc i ≡ x % 2 ^ i
    digit zero e lt = omega (arith, next_bit i x, ap (λ (t : ℕ). t * 2 ^ i) e)
    digit (suc zero) e lt =
        absurd (h (bit_and_bit i x ∙ omega (arith, ap (λ (t : ℕ). t * 2 ^ i) e)))
    digit (suc (suc d)) e lt = absurd (omega arith)

module _ {E : Type 0} (m : ImplVar E) (kept : (v : ℕ) → m.into (m.unrecognized_variant v) ≡ v) where
  loop_round :
      (n i flags target : ℕ)
      → fold_flags m.into (flags % 2 ^ suc i) (flags_from m n (i + 1) flags) ≡ target
      → fold_flags m.into (flags % 2 ^ i) (flags_from m (suc n) i flags) ≡ target
  unfolding fold_flags flags_from
  loop_round n i flags target ih = go (Bool-cases (bit_and (2 ^ i) flags == 2 ^ i))
    where
      later : List E
      later = flags_from m n (i + 1) flags

      choice :
          {d : Bool}
          → (bit_and (2 ^ i) flags == 2 ^ i) ≡ d
          → fold_flags m.into (flags % 2 ^ i) (flags_from m (suc n) i flags)
            ≡ fold_flags m.into (flags % 2 ^ i) (if d then from_value m (2 ^ i) ∷ later else later)
      choice e =
          ap
            (λ (d : Bool).
              fold_flags m.into (flags % 2 ^ i) (if d then from_value m (2 ^ i) ∷ later else later))
            e

      folded :
          bit_and (2 ^ i) flags ≡ 2 ^ i
          → bit_or (flags % 2 ^ i) (m.into (from_value m (2 ^ i))) ≡ flags % 2 ^ suc i
      folded e =
          rw (into-from_value m kept (2 ^ i))
            (bit_or_bit i (flags % 2 ^ i) (bit_range i flags) ∙ sym (bit_set i flags e))

      go :
          ((bit_and (2 ^ i) flags == 2 ^ i) ≡ true) ⊎ ((bit_and (2 ^ i) flags == 2 ^ i) ≡ false)
          → fold_flags m.into (flags % 2 ^ i) (flags_from m (suc n) i flags) ≡ target
      go (inl isset) =
          choice isset
          ∙ ap (λ (t : ℕ). fold_flags m.into t later) (folded ((==_iff _ _).0 isset))
          ∙ ih
      go (inr clear) =
          choice clear
          ∙ ap (λ (t : ℕ). fold_flags m.into t later)
              (sym (bit_clear i flags (λ e. cc ((==_iff _ _).1 e))))
          ∙ ih

  fold_flags-flags_from_loop :
      (n i flags : ℕ)
      → fold_flags m.into (flags % 2 ^ i) (flags_from m n i flags) ≡ flags % 2 ^ (i + n)
  fold_flags-flags_from_loop zero i flags = unfold fold_flags flags_from in rw add-zero
  fold_flags-flags_from_loop (suc n) i flags =
      let target : i + suc n ≡ suc i + n = omega arith in
      loop_round n i flags (flags % 2 ^ (i + suc n))
        (rw (add-one, target) (fold_flags-flags_from_loop n (suc i) flags))

  -- Where the unrecognized variant keeps its integer, splitting a word of `n` bits into flags and
  -- folding them gives the word back.
  pub fold_flags-flags_from :
      (n flags : ℕ) → flags < 2 ^ n → fold_flags m.into 0 (flags_from m n 0 flags) ≡ flags
  fold_flags-flags_from n flags h =
      let start : flags % 1 ≡ 0 = omega arith in
      let width : 0 + n ≡ n = omega arith in
      rw (start, width, mod-eq_of_lt h) at (fold_flags-flags_from_loop n 0 flags)

module _ {E : Type 0} (m : ImplVar E) (n : ℕ) where
  -- The flags are those that some word of `n` bits stands for, in the order of its bits.
  pub record AreFlags (flags : List E) : Type 0 where
    pub word : ℕ
    pub word_fits : word < 2 ^ n
    pub split : flags ≡ flags_from m n 0 word

module _ {E : Type 0} (m : ImplVar E) (kept : (v : ℕ) → m.into (m.unrecognized_variant v) ≡ v)
    (n : ℕ) where
  pub fold_flags-AreFlags :
      (flags : List E) (v : AreFlags m n flags) → fold_flags m.into 0 flags ≡ v.word
  fold_flags-AreFlags flags v = rw v.split (fold_flags-flags_from m kept n v.word v.word_fits)

  -- The word that is written fits, and splits into the same flags.
  pub fold_flags_fits : (flags : List E) → AreFlags m n flags → fold_flags m.into 0 flags < 2 ^ n
  fold_flags_fits flags v = rw (fold_flags-AreFlags flags v) v.word_fits

  pub flags_from-fold_flags :
      (flags : List E) → AreFlags m n flags → flags_from m n 0 (fold_flags m.into 0 flags) ≡ flags
  flags_from-fold_flags flags v = rw (fold_flags-AreFlags flags v) (sym v.split)
