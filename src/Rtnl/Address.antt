-- ===== src/Rtnl/Address.antt =====
-- src/rtnl.rs: `Ifaddrmsg` and `Rtgenmsg`. The size of an `Ifaddrmsg` leaves its attributes out.
use neli.Base.{ℕ, ◌+◌, ◌%◌, ◌^◌, List}
use neli.Outcome.{pure, ◌>>=◌, ◌>>◌, ok_or, sub_or_panic}
use neli.Err.{de_error}
use neli.Buffering.{Libc, Buffering}
use neli.Nl.{Nl, WritesBuffer, ReadsBuffer, alignto, take_hint, give_hint}
use neli.Nl.Uint.{u8, i32}
use neli.Nl.Bytes.{vec_u8}
use neli.Consts.{var}
use neli.Flags.{fold_flags, flags_from}
use neli.Rtnl.Rtattr
use neli.Rtnl.Rtattr.{Rtattrs}
use neli.Consts.Rtnl.Families.{RtAddrFamily, rt_addr_family, IfaF, ifa_f, ifa_f_into}
use neli.Consts.Rtnl.Attrs.{Ifa, ifa}

pub record Ifaddrmsg : Type 0 where
  pub ifa_family : RtAddrFamily
  pub ifa_prefixlen : ℕ
  pub ifa_flags : List IfaF
  pub ifa_scope : ℕ
  pub ifa_index : ℕ
  pub rtattrs : Rtattrs Ifa (List ℕ)

module _ ⦃c : Libc⦄ where
  -- `u32::from(next) as u8`
  abbrev pub next_uint : IfaF → ℕ
  next_uint next = ifa_f_into next % 2 ^ 8

module _ ⦃c : Libc⦄ ⦃b : Buffering⦄ where
  unfoldable pub size : Ifaddrmsg → ℕ
  size self =
      (var rt_addr_family).size self.ifa_family
      + u8.size self.ifa_prefixlen
      + 1
      + u8.size self.ifa_scope
      + i32.size self.ifa_index

  abbrev pub asize : Ifaddrmsg → ℕ
  asize self = alignto (size self)

  unfoldable pub serialize : Ifaddrmsg → WritesBuffer Unit
  serialize self = do
    (var rt_addr_family).serialize self.ifa_family
    u8.serialize self.ifa_prefixlen
    u8.serialize (fold_flags next_uint 0 self.ifa_flags)
    u8.serialize self.ifa_scope
    i32.serialize self.ifa_index
    Rtattr.serialize_all (var ifa) vec_u8 self.rtattrs
    pure tt

  unfoldable pub deserialize : ReadsBuffer Ifaddrmsg
  deserialize = do
    ifa_family ← (var rt_addr_family).deserialize
    ifa_prefixlen ← u8.deserialize
    flags ← u8.deserialize
    ifa_scope ← u8.deserialize
    ifa_index ← i32.deserialize
    let result : Ifaddrmsg = record {
      ifa_family = ifa_family;
      ifa_prefixlen = ifa_prefixlen;
      ifa_flags = flags_from ifa_f 8 0 flags;
      ifa_scope = ifa_scope;
      ifa_index = ifa_index;
      rtattrs = Rtattr.empty;
    }
    hint ← take_hint
    taken ← ok_or hint (de_error "Ifinfomsg requires a size hint to deserialize")
    size_hint ← sub_or_panic taken (asize result)
    give_hint size_hint
    rtattrs ← Rtattr.deserialize_all (var ifa) vec_u8
    pure (record result { rtattrs = rtattrs })

  abbrev pub ifaddrmsg : Nl Ifaddrmsg
  ifaddrmsg = record {
    serialize = serialize;
    deserialize = deserialize;
    size = size;
    asize = asize;
  }

pub record Rtgenmsg : Type 0 where
  pub rtgen_family : RtAddrFamily

module _ ⦃c : Libc⦄ ⦃b : Buffering⦄ where
  abbrev pub rtgenmsg : Nl Rtgenmsg
  rtgenmsg = record {
    serialize = λ self. (var rt_addr_family).serialize self.rtgen_family;
    deserialize = do
      rtgen_family ← (var rt_addr_family).deserialize
      pure (record { rtgen_family = rtgen_family });
    size = λ self. (var rt_addr_family).size self.rtgen_family;
    asize = λ self. alignto ((var rt_addr_family).size self.rtgen_family);
  }
