-- ===== src/Socket/Messages/Exchange.antt =====
-- src/socket.rs: a request by `send_nl` and its answer by `recv_ack`.
use neli.Base.{ℕ, ◌+◌, ◌^◌, ◌<◌, ◌≡◌, refl, arith, ◌==◌}
use neli.Base.{Option, none, some, false}
use neli.Outcome.{err}
use neli.Err.{bad_seq}
use neli.Buffering.{Libc, Buffering}
use neli.Nl.{Nl}
use neli.Nl.Laws.{Fixed, Payload}
use neli.Nl.Padding.{IsSmall}
use neli.Nlmsghdr
use neli.Nlmsghdr.{Nlmsghdr}
use neli.Nlmsghdr.RoundTrip.{bytes}
use neli.Kernel.{Kernel, pos, received}
use neli.Socket.{Host}
use neli.Socket.Messages.{with_seq, send_nl, recv_ack, max_nl_length}
use neli.Socket.Messages.Send.{IsBelowMax, send_nl_lem, after_send}
use neli.Socket.Messages.Receive.{Accepts}
use neli.Socket.Messages.Answer.{Answer, IsAnswer, IsAck, wire}
use neli.Socket.Messages.Ack.{ack_end, recv_ack_fetched}

module _ ⦃c : Libc⦄ ⦃b : Buffering⦄ where
  -- The number of the socket is not that of the request any more.
  pub next_differs : (k : Kernel) (s : ℕ) → ack_end k (some (s + 1)) s ≡ err bad_seq
  next_differs k s = rw (counted_on s) refl
    where
      counted_on : (s : ℕ) → (s + 1 == s) ≡ false
      counted_on s = ground arith

module _ ⦃c : Libc⦄ ⦃b : Buffering⦄ {T P : Type 0} {t : Nl T} {p : Nl P} (tl : Fixed t 2)
    (pl : Payload p) where
  -- A socket that counts its messages and that has no buffer sends a message with its number `s`, which
  -- the kernel takes, and the kernel then answers with an ack of that number, of a process that the
  -- socket takes, with the header of any request in it: `recv_ack` is `BadSeq`, since the socket's
  -- number has been counted up by then. The payload is valid, the message is no longer than lengths can
  -- be, and `s` is not the last number of 32 bits.
  pub recv_ack-send_nl :
      (k : Kernel) (h : Host k) (m : Nlmsghdr T P) (s n : ℕ) (w w' : k.World) (answer : Answer)
      (after : Option ℕ)
      → h.socket.seq ≡ some s
      → h.socket.buffer ≡ none
      → s + 1 < 2 ^ 32
      → pl.IsValid m.nl_payload
      → IsSmall (Nlmsghdr.size t p m)
      → k.send h.socket.fd (bytes tl pl (with_seq (some s) m)) 0 h.world ≡ (pos n, w)
      → IsAnswer answer
      → Accepts h.socket.pid answer.nl_pid after
      → IsAck answer
      → answer.nl_seq ≡ s
      → k.recv h.socket.fd max_nl_length 0 w ≡ (received (wire answer), w')
      → (recv_ack k (send_nl k t p m h).1).0 ≡ err bad_seq
  recv_ack-send_nl k h m s n w w' answer after seq empty below pv small sent v accepted ack same
        given =
      let bytes_sent : k.send h.socket.fd (bytes tl pl (with_seq h.socket.seq m)) 0 h.world
          ≡ (pos n, w) =
        rw seq sent in
      let below_max : IsBelowMax h.socket.seq = rw seq below in
      let sent_off = send_nl_lem tl pl k h m (pos n) w pv small below_max bytes_sent in
      let answered =
        recv_ack_fetched k (after_send k h w) answer w' after empty v accepted ack given in
      rw (sent_off, answered, seq, same) (next_differs k s)
