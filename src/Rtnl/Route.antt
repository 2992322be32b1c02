-- ===== src/Rtnl/Route.antt =====
-- src/rtnl.rs: `Rtmsg`.
pub mod RoundTrip
pub mod AnyBytes
pub mod Short
use neli.Base.{ℕ, ◌+◌, ◌%◌, Option, none, some, List, [], ◌∷◌}
use neli.Base.Decimal.{decimal, ◌<>◌}
use neli.Outcome.{pure, ◌>>=◌, ◌>>◌, checked_sub, ok_or, sub_or_panic}
use neli.Err.{de_error}
use neli.Buffering.{Libc, Buffering}
use neli.Nl.{Nl, WritesBuffer, ReadsBuffer, alignto, take_hint, give_hint}
use neli.Nl.Uint.{u8, u16, u32, i32}
use neli.Nl.Bytes.{vec_u8}
use neli.Consts.{var, from_value}
use neli.Flags.{fold_flags, flags_from}
use neli.Rtnl.Rtattr
use neli.Rtnl.Rtattr.{Rtattrs}
use neli.Consts.Rtnl.Families.{RtAddrFamily, rt_addr_family}
use neli.Consts.Rtnl.Routes.{Rtn, rtn, Rtprot, rtprot, RtScope, rt_scope, RtTable, rt_table}
use neli.Consts.Rtnl.Routes.{RtmF, rtm_f, rtm_f_into}
use neli.Consts.Rtnl.Attrs.{Rta, rta}

pub record Rtmsg : Type 0 where
  pub rtm_family : RtAddrFamily
  pub rtm_dst_len : ℕ
  pub rtm_src_len : ℕ
  pub rtm_tos : ℕ
  pub rtm_table : RtTable
  pub rtm_protocol : Rtprot
  pub rtm_scope : RtScope
  pub rtm_type : Rtn
  pub rtm_flags : List RtmF
  pub rtattrs : Rtattrs Rta (List ℕ)

module _ ⦃c : Libc⦄ ⦃b : Buffering⦄ where
  unfoldable pub size : Rtmsg → ℕ
  size self =
      (var rt_addr_family).size self.rtm_family
      + u8.size self.rtm_dst_len
      + u8.size self.rtm_src_len
      + u8.size self.rtm_tos
      + (var rt_table).size self.rtm_table
      + (var rtprot).size self.rtm_protocol
      + (var rt_scope).size self.rtm_scope
      + (var rtn).size self.rtm_type
      + 4
      + Rtattr.asize_all (var rta) vec_u8 self.rtattrs

  pub serialize : Rtmsg → WritesBuffer Unit
  serialize self = do
    (var rt_addr_family).serialize self.rtm_family
    u8.serialize self.rtm_dst_len
    u8.serialize self.rtm_src_len
    u8.serialize self.rtm_tos
    (var rt_table).serialize self.rtm_table
    (var rtprot).serialize self.rtm_protocol
    (var rt_scope).serialize self.rtm_scope
    (var rtn).serialize self.rtm_type
    u32.serialize (fold_flags rtm_f_into 0 self.rtm_flags)
    Rtattr.serialize_all (var rta) vec_u8 self.rtattrs
    pure tt

  pub deserialize : ReadsBuffer Rtmsg
  deserialize = do
    hint ← take_hint
    size_hint ← ok_or hint (de_error "Must provide size hint to deserialize Rtmsg")
    rtm_family ← (var rt_addr_family).deserialize
    rtm_dst_len ← u8.deserialize
    rtm_src_len ← u8.deserialize
    rtm_tos ← u8.deserialize
    rtm_table ← (var rt_table).deserialize
    rtm_protocol ← (var rtprot).deserialize
    rtm_scope ← (var rt_scope).deserialize
    rtm_type ← (var rtn).deserialize
    flags ← i32.deserialize
    let rtm_flags = flags_from rtm_f 32 0 flags
    no_family ← sub_or_panic size_hint ((var rt_addr_family).size rtm_family)
    no_dst_len ← sub_or_panic no_family (u8.size rtm_dst_len)
    no_src_len ← sub_or_panic no_dst_len (u8.size rtm_src_len)
    no_tos ← sub_or_panic no_src_len (u8.size rtm_tos)
    no_table ← sub_or_panic no_tos ((var rt_table).size rtm_table)
    no_protocol ← sub_or_panic no_table ((var rtprot).size rtm_protocol)
    no_scope ← sub_or_panic no_protocol ((var rt_scope).size rtm_scope)
    no_type ← sub_or_panic no_scope ((var rtn).size rtm_type)
    no_flags ← sub_or_panic no_type 4
    give_hint no_flags
    rtattrs ← Rtattr.deserialize_all (var rta) vec_u8
    pure (record {
      rtm_family = rtm_family;
      rtm_dst_len = rtm_dst_len;
      rtm_src_len = rtm_src_len;
      rtm_tos = rtm_tos;
      rtm_table = rtm_table;
      rtm_protocol = rtm_protocol;
      rtm_scope = rtm_scope;
      rtm_type = rtm_type;
      rtm_flags = rtm_flags;
      rtattrs = rtattrs;
    })

  abbrev pub rtmsg : Nl Rtmsg
  rtmsg = record {
    serialize = serialize;
    deserialize = deserialize;
    size = size;
    asize = λ self. alignto (size self);
  }
