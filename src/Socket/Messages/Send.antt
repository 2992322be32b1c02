-- ===== src/Socket/Messages/Send.antt =====
-- src/socket.rs, `send_nl`: what it gives to the kernel, and the sequence number.
use neli.Base.{ℕ, ◌+◌, ◌^◌, ◌<◌, ◌≡◌, refl, lt→ltb}
use neli.Base.{Option, none, some, [], length, append-nil, drop_nil}
use neli.Outcome.{Result, ok, err, pure, continue, map_err, ◌>>=◌, ◌>>◌}
use neli.Err.{NlError, msg, nl_of_io}
use neli.Buffering.{Libc, Buffering}
use neli.Nl.{Nl}
use neli.Nl.Laws.{Fixed, Payload}
use neli.Nl.Padding.{IsSmall}
use neli.Nlmsghdr
use neli.Nlmsghdr.{Nlmsghdr}
use neli.Nlmsghdr.RoundTrip.{bytes, serialize-Writes}
use neli.Kernel.{Kernel, ℤ, pos, negsuc}
use neli.Socket.{NlSocket, Host, at_least_zero, send}
use neli.Socket.Messages.{with_seq, serialized, send_nl, next_seq}

-- A number that is kept can be counted up.
abbrev pub IsBelowMax : Option ℕ → Type 0
IsBelowMax none = Unit
IsBelowMax (some seq) = seq + 1 < 2 ^ 32

abbrev pub counted : Option ℕ → Option ℕ
counted none = none
counted (some seq) = some (seq + 1)

module _ ⦃b : Buffering⦄ (k : Kernel) where
  -- The socket that counts a message, in the world `w`.
  abbrev pub after_send : Host k → k.World → Host k
  after_send h w = record { socket = record h.socket { seq = counted h.socket.seq }; world = w }

  -- What the call ends in where the kernel gives that number.
  abbrev pub send_end : Host k → ℤ → k.World → Result NlError Unit × Host k
  send_end h (pos n) w = (ok tt, after_send h w)
  send_end h (negsuc n) w = (err (msg (k.last_os_error w)), record h { world = w })

module _ ⦃b : Buffering⦄ (k : Kernel) where
  answered :
      (fd : ℕ) (buffer : Option b.ReadBuffer) (pid seq : Option ℕ) (i : ℤ) (w : k.World)
      → IsBelowMax seq
      → let self : NlSocket = record { fd = fd; buffer = buffer; pid = pid; seq = seq } in
        continue
          (map_err nl_of_io (at_least_zero k i w).0)
          (λ _. next_seq k seq >> pure tt)
          (record { socket = self; world = (at_least_zero k i w).1 })
        ≡ send_end k (record { socket = self; world = w }) i w
  unfolding ◌>>=◌
  answered fd buffer pid none (pos n) w below = refl
  answered fd buffer pid (some seq) (pos n) w below = rw (lt→ltb (seq + 1) (2 ^ 32) below) refl
  answered fd buffer pid seq (negsuc n) w below = refl

module _ ⦃c : Libc⦄ ⦃b : Buffering⦄ {T P : Type 0} {t : Nl T} {p : Nl P} (tl : Fixed t 2)
    (pl : Payload p) where
  serialized_lem :
      (m : Nlmsghdr T P)
      → pl.IsValid m.nl_payload
      → IsSmall (Nlmsghdr.size t p m)
      → serialized t p m ≡ ok (bytes tl pl m)
  unfolding serialized
  serialized_lem m v small = rw (
    b.new_growable_lem (some (Nlmsghdr.asize t p m)),
    (serialize-Writes tl pl m v small).at [] [],
    b.contents_lem,
    drop_nil (length (bytes tl pl m)),
    append-nil,
  )

  tagged :
      (seq : Option ℕ) (m : Nlmsghdr T P)
      → pl.IsValid m.nl_payload
      → IsSmall (Nlmsghdr.size t p m)
      → serialized t p (with_seq seq m) ≡ ok (bytes tl pl (with_seq seq m))
  unfolding Nlmsghdr.size
  tagged none m v small = serialized_lem m v small
  tagged (some seq) m v small = serialized_lem (record m { nl_seq = seq }) v small

  -- Whatever the kernel answers to `send`: it is given the bytes of the message, numbered with the
  -- socket's number where one is kept. Where the kernel takes them, the call succeeds and the number
  -- is counted up; where it does not, the call is the error of the kernel and the number is kept. The
  -- buffer, the process and the descriptor stay. The payload is valid, the message is no longer than
  -- lengths can be, and the number is not the last of 32 bits.
  pub send_nl_lem :
      (k : Kernel) (h : Host k) (m : Nlmsghdr T P) (i : ℤ) (w : k.World)
      → pl.IsValid m.nl_payload
      → IsSmall (Nlmsghdr.size t p m)
      → IsBelowMax h.socket.seq
      → k.send h.socket.fd (bytes tl pl (with_seq h.socket.seq m)) 0 h.world ≡ (i, w)
      → send_nl k t p m h ≡ send_end k h i w
  unfolding send_nl ◌>>=◌ send
  send_nl_lem k h m i w v small below sent =
      rw (tagged h.socket.seq m v small)
        (rw sent (answered k h.socket.fd h.socket.buffer h.socket.pid h.socket.seq i w below))
