-- ===== src/Rtnl/Link.antt =====
-- src/rtnl.rs: `Ifinfomsg`.
pub mod RoundTrip
pub mod AnyBytes
use neli.Base.{ℕ, ◌+◌, ◌%◌, Option, none, some, List, [], ◌∷◌}
use neli.Base.Decimal.{decimal, ◌<>◌}
use neli.Outcome.{pure, ◌>>=◌, ◌>>◌, checked_sub, ok_or, sub_or_panic}
use neli.Err.{de_error}
use neli.Buffering.{Libc, Buffering}
use neli.Nl.{Nl, WritesBuffer, ReadsBuffer, alignto, take_hint, give_hint}
use neli.Nl.Uint.{u8, u16, u32, i32}
use neli.Nl.Bytes.{vec_u8}
use neli.Consts.{var, from_value}
use neli.Flags.{fold_flags, flags_from}
use neli.Rtnl.Rtattr
use neli.Rtnl.Rtattr.{Rtattrs}
use neli.Consts.Rtnl.Families.{RtAddrFamily, rt_addr_family}
use neli.Consts.Rtnl.Interfaces.{Arphrd, arphrd, Iff, iff, iff_into, up as iff_up}
use neli.Consts.Rtnl.Links.{Ifla, ifla}

pub record Ifinfomsg : Type 0 where
  pub ifi_family : RtAddrFamily
  pub ifi_type : Arphrd
  pub ifi_index : ℕ
  pub ifi_flags : List Iff
  pub ifi_change : Iff
  pub rtattrs : Rtattrs Ifla (List ℕ)

pub new : RtAddrFamily → Arphrd → ℕ → List Iff → Iff → Rtattrs Ifla (List ℕ) → Ifinfomsg
new ifi_family ifi_type ifi_index ifi_flags ifi_change rtattrs = record {
  ifi_family = ifi_family;
  ifi_type = ifi_type;
  ifi_index = ifi_index;
  ifi_flags = ifi_flags;
  ifi_change = ifi_change;
  rtattrs = rtattrs;
}

unfoldable pub up : RtAddrFamily → Arphrd → ℕ → Rtattrs Ifla (List ℕ) → Ifinfomsg
up ifi_family ifi_type ifi_index rtattrs = record {
  ifi_family = ifi_family;
  ifi_type = ifi_type;
  ifi_index = ifi_index;
  ifi_flags = iff_up ∷ [];
  ifi_change = iff_up;
  rtattrs = rtattrs;
}

unfoldable pub down : RtAddrFamily → Arphrd → ℕ → Rtattrs Ifla (List ℕ) → Ifinfomsg
down ifi_family ifi_type ifi_index rtattrs = record {
  ifi_family = ifi_family;
  ifi_type = ifi_type;
  ifi_index = ifi_index;
  ifi_flags = [];
  ifi_change = iff_up;
  rtattrs = rtattrs;
}

module _ ⦃c : Libc⦄ ⦃b : Buffering⦄ where
  unfoldable pub size : Ifinfomsg → ℕ
  size self =
      (var rt_addr_family).size self.ifi_family
      + u8.size 0
      + (var arphrd).size self.ifi_type
      + i32.size self.ifi_index
      + 4
      + (var iff).size self.ifi_change
      + Rtattr.asize_all (var ifla) vec_u8 self.rtattrs

  pub serialize : Ifinfomsg → WritesBuffer Unit
  serialize self = do
    (var rt_addr_family).serialize self.ifi_family
    u8.serialize 0
    (var arphrd).serialize self.ifi_type
    i32.serialize self.ifi_index
    u32.serialize (fold_flags iff_into 0 self.ifi_flags)
    (var iff).serialize self.ifi_change
    Rtattr.serialize_all (var ifla) vec_u8 self.rtattrs
    pure tt

  pub deserialize : ReadsBuffer Ifinfomsg
  deserialize = do
    hint ← take_hint
    size_hint ← ok_or hint (de_error "Ifinfomsg requires a size hint to deserialize")
    ifi_family ← (var rt_addr_family).deserialize
    padding ← u8.deserialize
    ifi_type ← (var arphrd).deserialize
    ifi_index ← i32.deserialize
    flags ← u32.deserialize
    let ifi_flags = flags_from iff 32 0 flags
    change ← u32.deserialize
    let ifi_change = from_value iff change
    size_hint' ←
        ok_or
          (checked_sub size_hint (
            (var rt_addr_family).size ifi_family
            + u8.size padding
            + (var arphrd).size ifi_type
            + i32.size ifi_index
            + 4
            + (var iff).size ifi_change))
          (de_error (◌<>◌ "Truncated Ifinfomsg size_hint " (decimal size_hint)))
    give_hint size_hint'
    rtattrs ← Rtattr.deserialize_all (var ifla) vec_u8
    pure (new ifi_family ifi_type ifi_index ifi_flags ifi_change rtattrs)

  abbrev pub ifinfomsg : Nl Ifinfomsg
  ifinfomsg = record {
    serialize = serialize;
    deserialize = deserialize;
    size = size;
    asize = λ self. alignto (size self);
  }
