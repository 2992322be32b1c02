-- ===== src/Rtnl/Queueing.antt =====
-- src/rtnl.rs: `Tcmsg`. Its size leaves its attributes out.
pub mod RoundTrip
use neli.Base.{ℕ, ◌+◌, List}
use neli.Base.Decimal.{decimal, ◌<>◌}
use neli.Outcome.{pure, ◌>>=◌, ◌>>◌, checked_sub, ok_or}
use neli.Err.{de_error}
use neli.Buffering.{Libc, Buffering}
use neli.Nl.{Nl, WritesBuffer, ReadsBuffer, alignto, take_hint, give_hint}
use neli.Nl.Uint.{u8, u16, u32, i32}
use neli.Nl.Bytes.{vec_u8}
use neli.Consts.{var}
use neli.Rtnl.Rtattr
use neli.Rtnl.Rtattr.{Rtattrs}
use neli.Consts.Rtnl.Attrs.{Tca, tca}

pub record Tcmsg : Type 0 where
  pub tcm_family : ℕ
  pub tcm_ifindex : ℕ
  pub tcm_handle : ℕ
  pub tcm_parent : ℕ
  pub tcm_info : ℕ
  pub rtattrs : Rtattrs Tca (List ℕ)

module _ ⦃c : Libc⦄ ⦃b : Buffering⦄ where
  unfoldable pub size : Tcmsg → ℕ
  size self =
      u8.size self.tcm_family
      + 1
      + 2
      + i32.size self.tcm_ifindex
      + u32.size self.tcm_handle
      + u32.size self.tcm_parent
      + u32.size self.tcm_info

  unfoldable pub serialize : Tcmsg → WritesBuffer Unit
  serialize self = do
    u8.serialize self.tcm_family
    u8.serialize 0
    u16.serialize 0
    i32.serialize self.tcm_ifindex
    u32.serialize self.tcm_handle
    u32.serialize self.tcm_parent
    u32.serialize self.tcm_info
    Rtattr.serialize_all (var tca) vec_u8 self.rtattrs
    pure tt

  unfoldable pub deserialize : ReadsBuffer Tcmsg
  deserialize = do
    hint ← take_hint
    size_hint ← ok_or hint (de_error "Tcmsg requires a size hint to deserialize")
    tcm_family ← u8.deserialize
    u8.deserialize
    u16.deserialize
    tcm_ifindex ← i32.deserialize
    tcm_handle ← u32.deserialize
    tcm_parent ← u32.deserialize
    tcm_info ← u32.deserialize
    size_hint' ←
        ok_or
          (checked_sub size_hint (
            u8.size tcm_family
            + 1
            + 2
            + i32.size tcm_ifindex
            + u32.size tcm_handle
            + u32.size tcm_parent
            + u32.size tcm_info))
          (de_error (◌<>◌ "Truncated Tcmsg size_hint " (decimal size_hint)))
    give_hint size_hint'
    rtattrs ← Rtattr.deserialize_all (var tca) vec_u8
    pure (record {
      tcm_family = tcm_family;
      tcm_ifindex = tcm_ifindex;
      tcm_handle = tcm_handle;
      tcm_parent = tcm_parent;
      tcm_info = tcm_info;
      rtattrs = rtattrs;
    })

  abbrev pub tcmsg : Nl Tcmsg
  tcmsg = record {
    serialize = serialize;
    deserialize = deserialize;
    size = size;
    asize = λ self. alignto (size self);
  }
