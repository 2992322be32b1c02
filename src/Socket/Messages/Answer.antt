-- ===== src/Socket/Messages/Answer.antt =====
-- src/socket.rs: what `recv_ack` waits for, an error message with the header of a request in it.
use neli.Base.{ℕ, ◌-◌, ◌≤◌, ◌≡◌, arith}
use neli.Base.{Option, some, List, length}
use neli.Buffering.{Libc, Buffering}
use neli.Nl.Runs.{Reads}
use neli.Nl.Padding.{IsSmall, alignto_bounds}
use neli.Nl.Laws.{Payload}
use neli.Consts.{var}
use neli.Consts.Laws.{var_laws}
use neli.Consts.Messages.{Nlmsg, nlmsg}
use neli.Nlmsghdr
use neli.Nlmsghdr.{Nlmsghdr}
use neli.Nlmsghdr.RoundTrip.{IsHeader, bytes, size_lem, header-Reads, length-bytes_small}
use neli.Nlmsgerr.{Nlmsgerr, nlmsgerr}
use neli.Nlmsgerr.RoundTrip as Reported
use neli.Nlmsgerr.RoundTrip.{nlmsgerr_laws}

abbrev pub Answer : Type 0
Answer = Nlmsghdr Nlmsg (Nlmsgerr Nlmsg)

abbrev pub IsAck : Answer → Type 0
IsAck m = (m.nl_type ≡ Nlmsg.error) × (m.nl_payload.error ≡ 0)

module _ ⦃c : Libc⦄ ⦃b : Buffering⦄ where
  abbrev pub answers : Payload (nlmsgerr (var nlmsg))
  answers = nlmsgerr_laws (var_laws nlmsg)

  -- What an answer holds: two headers whose numbers fit, and an error number.
  pub record IsAnswer (m : Answer) : Type 0 where
    pub header_IsHeader : IsHeader (var_laws nlmsg) answers m
    pub payload_IsValid : Reported.IsValid (var_laws nlmsg) m.nl_payload

  -- Its bytes, to the end of the header in it.
  abbrev pub wire : Answer → List ℕ
  wire m = bytes (var_laws nlmsg) answers m

  -- The hint that is left when it is read.
  abbrev pub unread : Answer → Option ℕ
  unread m = some (m.nl_payload.nlmsg.nl_len - 16)

  answer_size : (m : Answer) → Nlmsghdr.size (var nlmsg) (nlmsgerr (var nlmsg)) m ≡ 36
  answer_size m =
      omega (
        arith,
        size_lem (var_laws nlmsg) answers m,
        Reported.size_lem (var_laws nlmsg) m.nl_payload,
      )

  answer_IsSmall : (m : Answer) → IsSmall (Nlmsghdr.size (var nlmsg) (nlmsgerr (var nlmsg)) m)
  answer_IsSmall m = omega (arith, answer_size m)

  pub answer-Reads :
      (m : Answer) (h : Option ℕ)
      → IsAnswer m
      → Reads (Nlmsghdr.deserialize (var nlmsg) (nlmsgerr (var nlmsg))) h (wire m) m (unread m)
  answer-Reads m h v =
      header-Reads (var_laws nlmsg) answers m h (unread m) v.header_IsHeader (answer_IsSmall m) (
        Reported.deserialize-Reads (var_laws nlmsg) m.nl_payload (some (m.nl_len - 16))
          v.payload_IsValid)

  pub length-wire_pos : (m : Answer) → IsAnswer m → 1 ≤ length (wire m)
  length-wire_pos m v = omega (
    arith,
    length-bytes_small (var_laws nlmsg) answers m v.payload_IsValid (answer_IsSmall m),
    answer_size m,
    alignto_bounds (Nlmsghdr.size (var nlmsg) (nlmsgerr (var nlmsg)) m) (answer_IsSmall m),
  )
