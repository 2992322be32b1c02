-- ===== src/Flags.antt =====
-- Flag fields: the `fold` with `|` of each `serialize`, and the loop over the bits of each
-- `deserialize`, as they stand in src/nl.rs and src/rtnl.rs. `value` is the conversion of a flag to
-- the integer, with its cast.
pub mod Laws
use neli.Base.{ℕ, zero, suc, ◌+◌, ◌^◌, bit_and, bit_or, ◌==◌, if◌then◌else◌, List, [], ◌∷◌}
use neli.Consts.{ImplVar, from_value}

module _ {E : Type 0} (value : E → ℕ) where
  pub fold_flags : ℕ → List E → ℕ
  fold_flags acc [] = acc
  fold_flags acc (next ∷ flags) = fold_flags (bit_or acc (value next)) flags

module _ {E : Type 0} (m : ImplVar E) where
  -- `n` rounds, from bit `i` on
  unfoldable pub flags_from : ℕ → ℕ → ℕ → List E
  flags_from zero i flags = []
  flags_from (suc n) i flags =
      let bit = 2 ^ i in
      let rest = flags_from n (i + 1) flags in
      if bit_and bit flags == bit then from_value m bit ∷ rest else rest
