-- ===== src/Socket/Messages/Ack.antt =====
-- src/socket.rs, `recv_ack` on an answer of the kernel, whose inner header is that of the request.
use neli.Base.{ℕ, ◌-◌, ◌^◌, ◌<◌, ◌≡◌, refl, ◌∙◌, arith, ◌==◌, ==_iff, Bool-cases}
use neli.Base.{
  Option, none, some, true, false, List, [], ◌∷◌, ◌++◌, append-nil, if◌then◌else◌, inl, inr, ◌⊎◌,
}
use neli.Outcome.{Result, ok, err, panic, ◌>>=◌}
use neli.Err.{NlError, msg, bad_seq, no_ack}
use neli.Buffering.{Libc, Buffering}
use neli.Consts.{var}
use neli.Consts.Messages.{Nlmsg, nlmsg}
use neli.Nlmsgerr.{nlmsgerr}
use neli.Kernel.{Kernel, received}
use neli.Socket.{Host}
use neli.Socket.Messages.{
  recv_nl, recv_ack, handle_ack, is_error, seq_check, os_error, drained, rewound, negated,
  max_nl_length,
}
use neli.Socket.Messages.Receive.{Accepts}
use neli.Socket.Messages.Receive.Queue.{with_queue, dequeue_read, fetched_bytes}
use neli.Socket.Messages.Answer.{
  Answer, IsAck, IsAnswer, wire, unread, answer-Reads, length-wire_pos,
}

is_error_lem : (ty : Nlmsg) → is_error ty ≡ true → ty ≡ Nlmsg.error
is_error_lem Nlmsg.error is = refl
is_error_lem Nlmsg.noop is = absurd (ground arith)
is_error_lem Nlmsg.done is = absurd (ground arith)
is_error_lem Nlmsg.overrun is = absurd (ground arith)
is_error_lem (Nlmsg.unrecognized_variant i) is = absurd (ground arith)

module _ ⦃c : Libc⦄ ⦃b : Buffering⦄ (k : Kernel) where
  -- What an ack ends in: the number of the socket, where it has one, is that of the ack.
  abbrev pub ack_end : Option ℕ → ℕ → Result NlError Unit
  ack_end none nl_seq = ok tt
  ack_end (some seq) nl_seq = if seq == nl_seq then ok tt else err bad_seq

  -- An error message with the 32 bits of the number -e is the text of the error e. The least number, of
  -- which there is no negation, is a panic.
  abbrev pub report : Nlmsg → ℕ → Result NlError Unit
  report Nlmsg.error number =
      if number == 2 ^ 31 then panic else err (msg (k.os_error_text (2 ^ 32 - number)))
  report other number = err no_ack

  report_other : (ty : Nlmsg) (number : ℕ) → is_error ty ≡ false → report ty number ≡ err no_ack
  report_other Nlmsg.error number other = absurd (ground arith)
  report_other Nlmsg.noop number other = refl
  report_other Nlmsg.done number other = refl
  report_other Nlmsg.overrun number other = refl
  report_other (Nlmsg.unrecognized_variant i) number other = refl

  pub seq_check_lem :
      (seq : Option ℕ) (nl_seq : ℕ) (h : Host k)
      → seq_check k seq nl_seq h ≡ (ack_end seq nl_seq, h)
  seq_check_lem none nl_seq h = refl
  seq_check_lem (some seq) nl_seq h = elim (Bool-cases (seq == nl_seq)) [
    | inl same ↦ rw same refl
    | inr differs ↦ rw differs refl
  ]

  handle_ack_accepts :
      (m : Answer) (h : Host k) → IsAck m → handle_ack k m h ≡ (ack_end h.socket.seq m.nl_seq, h)
  unfolding handle_ack ◌>>=◌
  handle_ack_accepts m h (type, number) = rw (type, number) (seq_check_lem h.socket.seq m.nl_seq h)

  pub reported :
      (number : ℕ) (h : Host k)
      → (number == 0) ≡ false
      → number < 2 ^ 32
      → os_error k number h ≡ (report Nlmsg.error number, h)
  reported number h nonzero fits =
      let back : negated number ≡ 2 ^ 32 - number = ground arith in
      elim (Bool-cases (number == 2 ^ 31)) [
        | inl least ↦ rw least refl
        | inr other ↦ rw (other, back) refl
      ]

  -- The host after an error number is that before it.
  pub os_error-host : (number : ℕ) (h : Host k) → (os_error k number h).1 ≡ h
  os_error-host number h = elim (Bool-cases (number == 2 ^ 31)) [
    | inl least ↦ rw least refl
    | inr other ↦ rw other refl
  ]

  handle_ack_refuses :
      (m : Answer) (h : Host k)
      → m.nl_payload.error < 2 ^ 32
      → ¬ IsAck m
      → handle_ack k m h ≡ (
        report m.nl_type m.nl_payload.error,
        with_queue k h (rewound k h.socket.buffer) h.socket.pid,
      )
  unfolding handle_ack ◌>>=◌
  handle_ack_refuses m h fits other =
      go (Bool-cases (is_error m.nl_type)) (Bool-cases (m.nl_payload.error == 0))
    where
      go :
          ((is_error m.nl_type ≡ true) ⊎ (is_error m.nl_type ≡ false))
          → ((m.nl_payload.error == 0) ≡ true) ⊎ ((m.nl_payload.error == 0) ≡ false)
          → handle_ack k m h ≡ (
            report m.nl_type m.nl_payload.error,
            with_queue k h (rewound k h.socket.buffer) h.socket.pid,
          )
      go (inr other_type) number =
          rw (other_type, report_other m.nl_type m.nl_payload.error other_type) refl
      go (inl is) (inl zeroed) =
          absurd (other (is_error_lem m.nl_type is, (==_iff m.nl_payload.error 0).0 zeroed))
      go (inl is) (inr number) =
          rw (is_error_lem m.nl_type is, number) (reported m.nl_payload.error _ number fits)

  -- What is left of the buffer where those bytes are still to be read.
  abbrev pub remaining : List ℕ → List ℕ → Option ℕ → Option b.ReadBuffer
  remaining front [] hint = none
  remaining front (x ∷ rest) hint = some (b.reader front (x ∷ rest) hint)

  drained-remaining :
      (front rest : List ℕ) (hint : Option ℕ)
      → drained k (some (b.reader front rest hint)) ≡ remaining front rest hint
  drained-remaining front [] hint = rw (b.at_end_nil front hint)
  drained-remaining front (x ∷ rest) hint = rw (b.at_end_cons front rest x hint)

  -- The buffer after an answer that is no ack: it is read again from its start, or, where the answer
  -- was the last of it, it is gone.
  abbrev pub put_back : List ℕ → List ℕ → Option ℕ → Option b.ReadBuffer
  put_back front [] hint = none
  put_back front (x ∷ rest) hint = some (b.reader [] (front ++ (x ∷ rest)) hint)

  rewound-remaining :
      (front rest : List ℕ) (hint : Option ℕ)
      → rewound k (remaining front rest hint) ≡ put_back front rest hint
  rewound-remaining front [] hint = refl
  rewound-remaining front (x ∷ rest) hint = rw (b.rewind_lem front (x ∷ rest) hint)

  -- The next message is taken off the buffer, whatever follows it.
  taken :
      (h : Host k) (front rest : List ℕ) (hint : Option ℕ) (m : Answer) (after : Option ℕ)
      → h.socket.buffer ≡ some (b.reader front (wire m ++ rest) hint)
      → IsAnswer m
      → Accepts h.socket.pid m.nl_pid after
      → recv_nl k (var nlmsg) (nlmsgerr (var nlmsg)) none h
        ≡ (ok m, with_queue k h (remaining (front ++ wire m) rest (unread m)) after)
  taken h front rest hint m after held v accepted =
      dequeue_read k (var nlmsg) (nlmsgerr (var nlmsg)) none h front (wire m) rest hint (unread m) m
        after held (answer-Reads m hint v) accepted
      ∙ rw (drained-remaining (front ++ wire m) rest (unread m)) refl

  -- The next message of the buffer is an error message with the number 0, of a process that the socket
  -- takes, and whatever follows it: `recv_ack` takes it off the buffer, and succeeds if the socket keeps
  -- no number or its number is that of the ack. Else it is `BadSeq`. The numbers of the message and of
  -- the header in it fit, and their lengths are any from that of a header: the one in it may count the
  -- payload of the request.
  pub recv_ack-IsAck :
      (h : Host k) (front rest : List ℕ) (hint : Option ℕ) (m : Answer) (after : Option ℕ)
      → h.socket.buffer ≡ some (b.reader front (wire m ++ rest) hint)
      → IsAnswer m
      → Accepts h.socket.pid m.nl_pid after
      → IsAck m
      → recv_ack k h ≡ (
        ack_end h.socket.seq m.nl_seq,
        with_queue k h (remaining (front ++ wire m) rest (unread m)) after,
      )
  unfolding recv_ack
  recv_ack-IsAck h front rest hint m after held v accepted ack =
      rw (taken h front rest hint m after held v accepted) (handle_ack_accepts m _ ack)

  -- The next message of the buffer is of a process that the socket takes, and no ack, and whatever
  -- follows it, as the payload of the request does an error: `recv_ack` is the error e where the type
  -- of the message is that of an error and its number is -e in 32 bits, a panic for the least of these
  -- numbers, and `NoAck` where its type is another. If bytes follow, the buffer is read again from its
  -- start, with what was read before the message too; if none do, the message is lost. The numbers of
  -- the message and of the header in it fit, and their lengths are any from that of a header.
  pub recv_ack_refuses :
      (h : Host k) (front rest : List ℕ) (hint : Option ℕ) (m : Answer) (after : Option ℕ)
      → h.socket.buffer ≡ some (b.reader front (wire m ++ rest) hint)
      → IsAnswer m
      → Accepts h.socket.pid m.nl_pid after
      → ¬ IsAck m
      → recv_ack k h ≡ (
        report m.nl_type m.nl_payload.error,
        with_queue k h (put_back (front ++ wire m) rest (unread m)) after,
      )
  unfolding recv_ack
  recv_ack_refuses h front rest hint m after held v accepted other =
      rw (taken h front rest hint m after held v accepted) (
        rw (handle_ack_refuses m _ v.payload_IsValid.error_fits other)
          (rw (rewound-remaining (front ++ wire m) rest (unread m)) refl))

  -- An ack that is all of a datagram, which the kernel gives to a socket with no buffer.
  pub recv_ack_fetched :
      (h : Host k) (m : Answer) (w : k.World) (after : Option ℕ)
      → h.socket.buffer ≡ none
      → IsAnswer m
      → Accepts h.socket.pid m.nl_pid after
      → IsAck m
      → k.recv h.socket.fd max_nl_length 0 h.world ≡ (received (wire m), w)
      → recv_ack k h
        ≡ (ack_end h.socket.seq m.nl_seq, with_queue k (record h { world = w }) none after)
  unfolding recv_ack
  recv_ack_fetched h m w after empty v accepted ack answer =
      let filled : Host k = record {
        socket = record h.socket { buffer = some (b.reader [] (wire m) none) };
        world = w;
      } in
      let whole : some (b.reader [] (wire m) none) ≡ some (b.reader [] (wire m ++ []) none) =
        rw append-nil in
      rw
        (fetched_bytes k (var nlmsg) (nlmsgerr (var nlmsg)) none h (wire m) w empty
          (length-wire_pos m v) answer)
        (recv_ack-IsAck filled [] [] none m after whole v accepted ack)
