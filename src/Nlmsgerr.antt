-- ===== src/Nlmsgerr.antt =====
-- src/err.rs: the payload of an error message, which repeats the header of the request.
pub mod RoundTrip
use neli.Base.{ℕ, ◌+◌}
use neli.Outcome.{pure, ◌>>=◌, ◌>>◌}
use neli.Buffering.{Libc, Buffering}
use neli.Nl.{Nl, WritesBuffer, ReadsBuffer, alignto, pad, strip}
use neli.Nl.Uint.{i32}
use neli.Nlmsghdr
use neli.Nlmsghdr.{Nlmsghdr, NlEmpty, empty}

pub record Nlmsgerr (T : Type 0) : Type 0 where
  pub error : ℕ
  pub nlmsg : Nlmsghdr T NlEmpty

module _ ⦃c : Libc⦄ ⦃b : Buffering⦄ {T : Type 0} (t : Nl T) where
  unfoldable pub size : Nlmsgerr T → ℕ
  size self = i32.size self.error + Nlmsghdr.size t empty self.nlmsg

  abbrev pub asize : Nlmsgerr T → ℕ
  asize self = alignto (size self)

  pub serialize : Nlmsgerr T → WritesBuffer Unit
  serialize self = do
    i32.serialize self.error
    Nlmsghdr.serialize t empty self.nlmsg
    pad (size self) (asize self)
    pure tt

  pub deserialize : ReadsBuffer (Nlmsgerr T)
  deserialize = do
    error ← i32.deserialize
    header ← Nlmsghdr.deserialize t empty
    let nlmsg : Nlmsgerr T = record { error = error; nlmsg = header }
    strip (size nlmsg) (asize nlmsg)
    pure nlmsg

  abbrev pub nlmsgerr : Nl (Nlmsgerr T)
  nlmsgerr = record { serialize = serialize; deserialize = deserialize; size = size; asize = asize }
