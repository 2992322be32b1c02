-- ===== src/Genlmsghdr.antt =====
-- src/genl.rs: the generic netlink header and its attributes.
pub mod RoundTrip
pub mod Errors
pub mod AnyBytes
use neli.Base.{ℕ, ◌+◌, Option, none, some, List, String}
use neli.Outcome.{Result, ok, pure, throw, ◌>>=◌, ◌>>◌, sub_or_panic}
use neli.Err.{SerError, DeError, de_error}
use neli.Buffering.{Libc, Buffering}
use neli.Nl.{Nl, WritesBuffer, ReadsBuffer, alignto, pad, strip, take_hint, give_hint}
use neli.Nl.Uint.{u8, u16}
use neli.Nl.Bytes.{vec_u8}
use neli.Nlattr
use neli.Nlattr.{Nlattr, nlattrs}
use neli.Nlattr.Handle
use neli.Nlattr.Handle.{AttrHandle}

pub record Genlmsghdr (C T : Type 0) : Type 0 where
  pub cmd : C
  pub version : ℕ
  pub reserved : ℕ
  pub attrs : List (Nlattr T (List ℕ))

module _ {C T : Type 0} where
  unfoldable pub new : C → ℕ → List (Nlattr T (List ℕ)) → Result SerError (Genlmsghdr C T)
  new cmd version attrs = ok (record { cmd = cmd; version = version; reserved = 0; attrs = attrs })

  unfoldable pub get_attr_handle : Genlmsghdr C T → AttrHandle T
  get_attr_handle self = Handle.new_borrowed self.attrs

module _ ⦃b : Buffering⦄ where
  -- The subtraction is in the closure that `map` gets, and panics below the size of the header.
  abbrev pub hint_after : Option ℕ → ℕ → ReadsBuffer ℕ
  hint_after none taken = throw (de_error "Must provide size hint to deserialize Genlmsghdr")
  hint_after (some sh) taken = sub_or_panic sh taken

module _ ⦃c : Libc⦄ ⦃b : Buffering⦄ {C T : Type 0} (k : Nl C) (t : Nl T) where
  unfoldable pub size : Genlmsghdr C T → ℕ
  size self =
      k.size self.cmd
      + u8.size self.version
      + u16.size self.reserved
      + Nlattr.asize_all t vec_u8 self.attrs

  abbrev pub asize : Genlmsghdr C T → ℕ
  asize self = alignto (size self)

  pub serialize : Genlmsghdr C T → WritesBuffer Unit
  serialize self = do
    k.serialize self.cmd
    u8.serialize self.version
    u16.serialize self.reserved
    Nlattr.serialize_all t vec_u8 self.attrs
    pad (size self) (asize self)
    pure tt

  pub deserialize : ReadsBuffer (Genlmsghdr C T)
  deserialize = do
    cmd ← k.deserialize
    version ← u8.deserialize
    reserved ← u16.deserialize
    hint ← take_hint
    size_hint ← hint_after hint (k.size cmd + u8.size version + u16.size reserved)
    give_hint size_hint
    attrs ← Nlattr.deserialize_all t vec_u8
    let genl : Genlmsghdr C T = record {
      cmd = cmd;
      version = version;
      reserved = reserved;
      attrs = attrs;
    }
    strip (size genl) (asize genl)
    pure genl

  abbrev pub genlmsghdr : Nl (Genlmsghdr C T)
  genlmsghdr = record {
    serialize = serialize;
    deserialize = deserialize;
    size = size;
    asize = asize;
  }
