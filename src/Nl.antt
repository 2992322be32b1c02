-- ===== src/Nl.antt =====
-- src/lib.rs, the trait `Nl`, and `alignto` of src/consts/mod.rs. A value of the record `Nl A` is an
-- implementation of the trait for `A`. `size` and `asize` are fields, since `asize` is overridden;
-- `pad` and `strip` are not, and are the functions below. Lengths are `usize`, which no sum of
-- lengths of what is in memory leaves; a difference below 0 is a panic.
pub mod Runs
pub mod Uint
pub mod Bytes
pub mod Text
pub mod Padding
pub mod Laws
pub mod Ends
pub mod Stops
use neli.Base.{ℕ, zero, suc, ◌+◌, ◌-◌, ◌^◌, ◌≤◌, ltb, leb, if◌then◌else◌, List, [], ◌∷◌, length}
use neli.Base.{take, replicate, bit_and, ◌≡◌, Bool, true, false, String, Option, none, some}
use neli.Outcome.{Result, Exec, pure, abort, ◌>>=◌, ◌>>◌, convert, modify, lift, sub_or_panic}
use neli.Err.{SerError, DeError, ser_of_io, de_of_io}
use neli.Buffering.{Libc, Buffering}

module _ ⦃c : Libc⦄ where
  -- `&` with the complement of `NLA_ALIGNTO - 1`, in 64 bits
  unfoldable pub alignto : ℕ → ℕ
  alignto len =
      let align = c.constant "NLA_ALIGNTO" in bit_and (len + align - 1) (2 ^ 64 - 1 - (align - 1))

module _ ⦃b : Buffering⦄ where
  abbrev pub WritesBuffer : Type 0 → Type 0
  WritesBuffer A = Exec b.WriteBuffer SerError A

  abbrev pub ReadsBuffer : Type 0 → Type 0
  ReadsBuffer A = Exec b.ReadBuffer DeError A

  pub record Nl (A : Type 0) : Type 0 where
    pub serialize : A → WritesBuffer Unit
    pub deserialize : ReadsBuffer A
    pub size : A → ℕ
    pub asize : A → ℕ

  -- `&xs[..n]`
  abbrev pub slice_to {ℓ} : {S E A : Type ℓ} → List A → ℕ → Exec S E (List A)
  slice_to xs n = if leb n (length xs) then pure (take n xs) else abort

  abbrev pub take_hint : ReadsBuffer (Option ℕ)
  take_hint m = let (h, m') = b.take_size_hint m in pure h m'

  abbrev pub give_hint : ℕ → ReadsBuffer Unit
  give_hint n = modify (b.set_size_hint n)

-- `pad` and `strip` ask `self` for its `size` and `asize` and for nothing else.
module _ ⦃c : Libc⦄ ⦃b : Buffering⦄ (size asize : ℕ) where
  pub pad : WritesBuffer Unit
  pad = do
    padding_len ← sub_or_panic asize size
    zeros ← slice_to {A = ℕ} (replicate (c.constant "NLA_ALIGNTO") 0) padding_len
    convert ser_of_io (b.write_all zeros)
    pure tt

  pub strip : ReadsBuffer Unit
  strip = do
    padding_len ← sub_or_panic asize size
    if ltb 0 padding_len
        then (do
          zeros ← slice_to {A = ℕ} (replicate (c.constant "NLA_ALIGNTO") 0) padding_len
          convert de_of_io (b.read_exact (length zeros))
          pure tt)
        else pure tt
