-- ===== src/Rtnl/Neighbour.antt =====
-- src/rtnl.rs: `Ndmsg` and `NdaCacheinfo`.
pub mod RoundTrip
use neli.Base.{ℕ, ◌+◌, List}
use neli.Outcome.{pure, ◌>>=◌, ◌>>◌, ok_or, sub_or_panic}
use neli.Err.{de_error}
use neli.Buffering.{Libc, Buffering}
use neli.Nl.{Nl, WritesBuffer, ReadsBuffer, alignto, take_hint, give_hint}
use neli.Nl.Uint.{u8, u16, u32, i32}
use neli.Nl.Bytes.{vec_u8}
use neli.Consts.{var}
use neli.Flags.{fold_flags, flags_from}
use neli.Rtnl.Rtattr
use neli.Rtnl.Rtattr.{Rtattrs}
use neli.Consts.Rtnl.Families.{RtAddrFamily, rt_addr_family}
use neli.Consts.Rtnl.Routes.{Rtn, rtn}
use neli.Consts.Rtnl.Neighbours.{Nud, nud, nud_into, Ntf, ntf, ntf_into, Nda, nda}

pub record Ndmsg : Type 0 where
  pub ndm_family : RtAddrFamily
  pub ndm_index : ℕ
  pub ndm_state : List Nud
  pub ndm_flags : List Ntf
  pub ndm_type : Rtn
  pub rtattrs : Rtattrs Nda (List ℕ)

module _ ⦃c : Libc⦄ ⦃b : Buffering⦄ where
  unfoldable pub size : Ndmsg → ℕ
  size self =
      (var rt_addr_family).size self.ndm_family
      + 3
      + i32.size self.ndm_index
      + 2
      + 1
      + (var rtn).size self.ndm_type
      + Rtattr.asize_all (var nda) vec_u8 self.rtattrs

  unfoldable pub serialize : Ndmsg → WritesBuffer Unit
  serialize self = do
    (var rt_addr_family).serialize self.ndm_family
    u8.serialize 0
    u16.serialize 0
    i32.serialize self.ndm_index
    u16.serialize (fold_flags nud_into 0 self.ndm_state)
    u8.serialize (fold_flags ntf_into 0 self.ndm_flags)
    (var rtn).serialize self.ndm_type
    Rtattr.serialize_all (var nda) vec_u8 self.rtattrs
    pure tt

  unfoldable pub deserialize : ReadsBuffer Ndmsg
  deserialize = do
    hint ← take_hint
    size_hint ← ok_or hint (de_error "Must provide size hint to deserialize Ndmsg")
    ndm_family ← (var rt_addr_family).deserialize
    u8.deserialize
    u16.deserialize
    ndm_index ← i32.deserialize
    state ← u16.deserialize
    let ndm_state = flags_from nud 16 0 state
    flags ← u8.deserialize
    let ndm_flags = flags_from ntf 8 0 flags
    ndm_type ← (var rtn).deserialize
    no_family ← sub_or_panic size_hint ((var rt_addr_family).size ndm_family)
    no_padding ← sub_or_panic no_family 3
    no_index ← sub_or_panic no_padding (i32.size ndm_index)
    no_state ← sub_or_panic no_index 2
    no_flags ← sub_or_panic no_state 1
    no_type ← sub_or_panic no_flags ((var rtn).size ndm_type)
    give_hint no_type
    rtattrs ← Rtattr.deserialize_all (var nda) vec_u8
    pure (record {
      ndm_family = ndm_family;
      ndm_index = ndm_index;
      ndm_state = ndm_state;
      ndm_flags = ndm_flags;
      ndm_type = ndm_type;
      rtattrs = rtattrs;
    })

  abbrev pub ndmsg : Nl Ndmsg
  ndmsg = record {
    serialize = serialize;
    deserialize = deserialize;
    size = size;
    asize = λ self. alignto (size self);
  }

pub record NdaCacheinfo : Type 0 where
  pub ndm_confirmed : ℕ
  pub ndm_used : ℕ
  pub ndm_updated : ℕ
  pub ndm_refcnt : ℕ

module _ ⦃c : Libc⦄ ⦃b : Buffering⦄ where
  abbrev pub cacheinfo_size : NdaCacheinfo → ℕ
  cacheinfo_size self =
      u32.size self.ndm_confirmed
      + u32.size self.ndm_used
      + u32.size self.ndm_updated
      + u32.size self.ndm_refcnt

  unfoldable pub serialize_cacheinfo : NdaCacheinfo → WritesBuffer Unit
  serialize_cacheinfo self = do
    u32.serialize self.ndm_confirmed
    u32.serialize self.ndm_used
    u32.serialize self.ndm_updated
    u32.serialize self.ndm_refcnt
    pure tt

  unfoldable pub deserialize_cacheinfo : ReadsBuffer NdaCacheinfo
  deserialize_cacheinfo = do
    ndm_confirmed ← u32.deserialize
    ndm_used ← u32.deserialize
    ndm_updated ← u32.deserialize
    ndm_refcnt ← u32.deserialize
    pure (record {
      ndm_confirmed = ndm_confirmed;
      ndm_used = ndm_used;
      ndm_updated = ndm_updated;
      ndm_refcnt = ndm_refcnt;
    })

  abbrev pub nda_cacheinfo : Nl NdaCacheinfo
  nda_cacheinfo = record {
    serialize = serialize_cacheinfo;
    deserialize = deserialize_cacheinfo;
    size = cacheinfo_size;
    asize = λ self. alignto (cacheinfo_size self);
  }
