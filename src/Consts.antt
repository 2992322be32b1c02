-- ===== src/Consts.antt =====
-- src/consts/macros.rs: what `impl_var!` makes of an enum. A value of `ImplVar E` is one invocation:
-- the width of the integer in bytes, the variants in the order they are listed, and the conversion
-- to the integer. `from_value` is the conversion back, which takes the first arm that fits. The
-- enums are in the modules below, as they are on a `gnu` target.
pub mod Laws
pub mod Messages
pub mod Rtm
pub mod Attrs
pub mod Genl
pub mod Netfilter
pub mod Socket
pub mod Rtnl
use neli.Base.{ℕ, ◌==◌, if◌then◌else◌, List, [], ◌∷◌}
use neli.Outcome.{pure, ◌>>=◌}
use neli.Buffering.{Libc, Buffering}
use neli.Nl.{Nl, WritesBuffer, ReadsBuffer, alignto}
use neli.Nl.Uint.{uint}

pub record ImplVar (E : Type 0) : Type 0 where
  pub width : ℕ
  pub variants : List E
  pub unrecognized_variant : ℕ → E
  pub into : E → ℕ

module _ {E : Type 0} (m : ImplVar E) where
  unfoldable pub first_arm : List E → ℕ → E
  first_arm [] v = m.unrecognized_variant v
  first_arm (x ∷ xs) v = if v == m.into x then x else first_arm xs v

  -- `From<$ty> for $name`
  unfoldable pub from_value : ℕ → E
  unfolding first_arm
  from_value v = first_arm m.variants v

module _ ⦃c : Libc⦄ ⦃b : Buffering⦄ {E : Type 0} (m : ImplVar E) where
  pub serialize_var : E → WritesBuffer Unit
  serialize_var self = let v = m.into self in (uint m.width).serialize v

  pub deserialize_var : ReadsBuffer E
  deserialize_var = do v ← (uint m.width).deserialize; pure (from_value m v)

  abbrev pub var : Nl E
  var = record {
    serialize = serialize_var;
    deserialize = deserialize_var;
    size = λ _. m.width;
    asize = λ _. alignto m.width;
  }
