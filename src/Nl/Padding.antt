-- ===== src/Nl/Padding.antt =====
-- `alignto`, `pad` and `strip`: what is written and read between the end of a value and the next
-- multiple of 4.
use neli.Base.{ℕ, ◌+◌, ◌-◌, ◌*◌, ◌/◌, ◌^◌, ◌≤◌, ◌<◌, ◌≡◌, arith}
use neli.Base.{Option, none, List, [], ◌∷◌, length, take, replicate, leb, bit_and}
use neli.Base.{le→leb, lt→ltb, take-replicate, length-replicate}
use neli.Base.{true}
use neli.Base.Bits.{bit_and-digit, bit_and_ones}
use neli.Outcome.{ok, err, sub_or_panic, ◌>>=◌}
use neli.Err.{DeError, de_of_io}
use neli.Buffering.{Libc, Buffering}
use neli.Nl.{alignto, pad, strip, slice_to}
use neli.Nl.Runs.{Writes, Reads, Writes-silent, Writes-last, Reads-silent, Reads-last, Reads-pure}

-- Sizes that `alignto` rounds without leaving 64 bits.
abbrev pub IsSmall : ℕ → Type 0
IsSmall n = n + 3 < 2 ^ 64

mask_four : (a : ℕ) → a < 2 ^ 64 → bit_and a (2 ^ 64 - 4) ≡ a / 4 * 4
mask_four a h = omega (
  arith,
  bit_and-digit a (2 ^ 64 - 4),
  bit_and-digit (a / 2) (2 ^ 63 - 2),
  bit_and_ones 62 (a / 2 / 2) (omega arith),
)

module _ ⦃c : Libc⦄ where
  -- `alignto` rounds up to the next multiple of 4, for sizes that 3 more keep within 64 bits.
  pub alignto_lem : (n : ℕ) → IsSmall n → alignto n ≡ (n + 3) / 4 * 4
  unfolding alignto
  alignto_lem n h =
      let last : n + 4 - 1 ≡ n + 3 = omega arith in
      rw c.nla_alignto_four (rw last (mask_four (n + 3) h))

  pub alignto_bounds : (n : ℕ) → IsSmall n → (n ≤ alignto n) × (alignto n ≤ n + 3)
  alignto_bounds n h = omega (arith, alignto_lem n h)

  -- The bytes between a value of size `n` and the next.
  abbrev pub padding : ℕ → List ℕ
  padding n = replicate (alignto n - n) 0

  pub length-padding : (n : ℕ) → IsSmall n → n + length (padding n) ≡ alignto n
  length-padding n h = omega (arith, length-replicate {A = ℕ} (alignto n - n) 0, alignto_bounds n h)

  zeros_taken :
      (n : ℕ)
      → IsSmall n
      → take (alignto n - n) (replicate (c.constant "NLA_ALIGNTO") 0) ≡ padding n
  zeros_taken n h =
      rw c.nla_alignto_four (take-replicate (alignto n - n) 4 0 (omega (arith, alignto_bounds n h)))

  zeros_enough :
      (n : ℕ)
      → IsSmall n
      → leb (alignto n - n) (length {A = ℕ} (replicate (c.constant "NLA_ALIGNTO") 0)) ≡ true
  zeros_enough n h =
      rw c.nla_alignto_four (le→leb (alignto n - n) 4 (omega (arith, alignto_bounds n h)))

pub sub_or_panic_lem :
    {S E : Type 0} (x y : ℕ) (s : S) → y ≤ x → sub_or_panic {E = E} x y s ≡ (ok (x - y), s)
sub_or_panic_lem x y s h = rw (le→leb y x h)

-- One subtraction, by what is left.
pub sub_or_panic_left :
    {S E : Type 0} (x y left : ℕ)
    → x ≡ y + left
    → (s : S) → sub_or_panic {E = E} x y s ≡ (ok left, s)
sub_or_panic_left x y left e s =
    let rest : x - y ≡ left = omega arith in
    rw (sub_or_panic_lem {E = _} x y s (omega arith)) (rw rest)

module _ ⦃c : Libc⦄ ⦃b : Buffering⦄ where
  slice_zeros :
      {S E : Type 0} (n : ℕ) (s : S)
      → IsSmall n
      → slice_to {E = E} (replicate (c.constant "NLA_ALIGNTO") 0) (alignto n - n) s
        ≡ (ok (padding n), s)
  slice_zeros n s h = rw (zeros_enough n h, zeros_taken n h)

module _ ⦃c : Libc⦄ ⦃b : Buffering⦄ (size : ℕ) (small : IsSmall size) where
  difference :
      {S E : Type 0} (s : S)
      → sub_or_panic {E = E} (alignto size) size s ≡ (ok (alignto size - size), s)
  difference s = sub_or_panic_lem (alignto size) size s (alignto_bounds size small).0

  pub Writes-pad : Writes (pad size (alignto size)) (padding size)
  unfolding pad
  Writes-pad =
      Writes-silent _ _ (alignto size - size) (λ f r. difference _)
        (Writes-silent _ _ (padding size) (λ f r. slice_zeros size _ small)
          (Writes-last _ (record { at = λ f r. rw (b.write_all_lem (padding size) f r none) })))

  -- Stripping reads as many bytes as padding writes, whatever they are.
  pub Reads-strip :
      (h : Option ℕ) (xs : List ℕ)
      → length xs ≡ alignto size - size
      → Reads (strip size (alignto size)) h xs tt h
  unfolding strip
  Reads-strip h [] len =
      Reads-silent _ _ (alignto size - size) (λ f r. difference _) (rw (← len) (Reads-pure tt))
  Reads-strip h (x ∷ xs) len =
      Reads-silent _ _ (alignto size - size) (λ f r. difference _)
        (rw (lt→ltb 0 (alignto size - size) (omega arith)) (
          Reads-silent _ _ (padding size) (λ f r. slice_zeros size _ small)
            (Reads-last _ _ {a = x ∷ xs}
              (record {
                at = λ f r.
                    rw (length-replicate {A = ℕ} (alignto size - size) 0)
                      (rw (← len) (rw (b.read_exact_lem (x ∷ xs) f r h)));
              })
              (Reads-pure tt))))

  -- With less than the padding left, stripping is an error.
  pub strip_short :
      (h : Option ℕ) (f r : List ℕ)
      → length r < alignto size - size
      → (strip size (alignto size) (b.reader f r h)).0 ≡ err (de_of_io b.eof)
  unfolding strip ◌>>=◌
  strip_short h f r short =
      let n = alignto size - size in
      rw (difference {E = DeError} (b.reader f r h)) (
        rw (lt→ltb 0 n (omega arith)) (
          rw (slice_zeros {E = DeError} size (b.reader f r h) small)
            (rw (length-replicate {A = ℕ} n 0) (rw (b.read_exact_short n f r h short)))))
