-- ===== src/Nlmsghdr.antt =====
-- src/nl.rs: the header of every netlink message, and the empty payload.
pub mod RoundTrip
pub mod Errors
pub mod AnyBytes
pub mod Short
use neli.Base.{ℕ, ◌+◌, ◌%◌, ◌^◌, Option, none, some, List, [], String}
use neli.Outcome.{pure, ◌>>=◌, ◌>>◌, checked_sub, ok_or}
use neli.Err.{SerError, DeError, de_error}
use neli.Buffering.{Libc, Buffering}
use neli.Nl.{Nl, WritesBuffer, ReadsBuffer, alignto, pad, strip, give_hint}
use neli.Nl.Uint.{u16, u32}
use neli.Consts.Messages.{NlmF, nlm_f, nlm_f_into}
use neli.Flags.{fold_flags, flags_from}
use neli.Nlattr.Build.{unwrap_or}

pub record Nlmsghdr (T P : Type 0) : Type 0 where
  pub nl_len : ℕ
  pub nl_type : T
  pub nl_flags : List NlmF
  pub nl_seq : ℕ
  pub nl_pid : ℕ
  pub nl_payload : P

abbrev pub short_packet : String
short_packet =
    "Packet reported shorter length than netlink header - make sure you are receiving the correct type from the socket"

module _ ⦃c : Libc⦄ ⦃b : Buffering⦄ {T P : Type 0} (t : Nl T) (p : Nl P) where
  unfoldable pub size : Nlmsghdr T P → ℕ
  size self =
      u32.size self.nl_len
      + t.size self.nl_type
      + 2
      + u32.size self.nl_seq
      + u32.size self.nl_pid
      + p.size self.nl_payload

  abbrev pub asize : Nlmsghdr T P → ℕ
  asize self = alignto (size self)

  unfoldable pub new : Option ℕ → T → List NlmF → Option ℕ → Option ℕ → P → Nlmsghdr T P
  unfolding size
  new nl_len nl_type nl_flags nl_seq nl_pid nl_payload =
      let nl : Nlmsghdr T P = record {
        nl_len = 0;
        nl_type = nl_type;
        nl_flags = nl_flags;
        nl_seq = unwrap_or nl_seq 0;
        nl_pid = unwrap_or nl_pid 0;
        nl_payload = nl_payload;
      } in
      record nl { nl_len = unwrap_or nl_len (size nl % 2 ^ 32) }

  pub serialize : Nlmsghdr T P → WritesBuffer Unit
  serialize self = do
    u32.serialize self.nl_len
    t.serialize self.nl_type
    let val = fold_flags nlm_f_into 0 self.nl_flags
    u16.serialize val
    u32.serialize self.nl_seq
    u32.serialize self.nl_pid
    p.serialize self.nl_payload
    pad (size self) (asize self)
    pure tt

  pub deserialize : ReadsBuffer (Nlmsghdr T P)
  deserialize = do
    nl_len ← u32.deserialize
    nl_type ← t.deserialize
    flags ← u16.deserialize
    nl_seq ← u32.deserialize
    nl_pid ← u32.deserialize
    payload_len ←
        ok_or
          (checked_sub nl_len
            (u32.size nl_len + t.size nl_type + u16.size 0 + u32.size nl_seq + u32.size nl_pid))
          (de_error short_packet)
    give_hint payload_len
    nl_payload ← p.deserialize
    let nl : Nlmsghdr T P = record {
      nl_len = nl_len;
      nl_type = nl_type;
      nl_flags = flags_from nlm_f 16 0 flags;
      nl_seq = nl_seq;
      nl_pid = nl_pid;
      nl_payload = nl_payload;
    }
    strip (size nl) (asize nl)
    pure nl

  abbrev pub nlmsghdr : Nl (Nlmsghdr T P)
  nlmsghdr = record { serialize = serialize; deserialize = deserialize; size = size; asize = asize }

pub data NlEmpty : Type 0 where
  nl_empty : NlEmpty

module _ ⦃c : Libc⦄ ⦃b : Buffering⦄ where
  abbrev pub empty : Nl NlEmpty
  empty = record {
    serialize = λ _. pure tt;
    deserialize = pure nl_empty;
    size = λ _. 0;
    asize = λ _. alignto 0;
  }
