-- ===== src/Socket/Messages/Receive/Queue.antt =====
-- src/socket.rs, `recv_nl` on well-formed bytes: the buffer is a queue of messages, one of which each
-- call takes, and the kernel is asked where the queue is empty.
use neli.Base.{ℕ, zero, suc, ◌≤◌, ◌≡◌, refl, ◌∙◌, sym, ap, arith, ==_refl}
use neli.Base.{Option, none, some, List, [], ◌∷◌, ◌++◌, length, length-append}
use neli.Base.{take-append_length, false, ◌==◌}
use neli.Outcome.{Exec, ok, pure, ◌>>=◌}
use neli.Buffering.{Libc, Buffering, All}
use neli.Nl.{Nl}
use neli.Nl.Runs.{Reads}
use neli.Nl.Laws.{Fixed, Payload}
use neli.Nl.Padding.{alignto_bounds}
use neli.Nlattr.Build.{unwrap_or}
use neli.Nlmsghdr
use neli.Nlmsghdr.{Nlmsghdr}
use neli.Nlmsghdr.RoundTrip.{
  IsValid, IsValid-IsSmall, bytes, length-bytes, size_lem, deserialize-Reads,
}
use neli.Kernel.{Kernel, received}
use neli.Socket.{Host, recv}
use neli.Socket.Messages.{recv_nl, pid_check, drained, max_nl_length}
use neli.Socket.Messages.Receive.{Accepts}

-- `n` calls, and what they give.
unfoldable pub repeat {ℓ} : {S E A : Type ℓ} → ℕ → Exec S E A → Exec S E (List A)
repeat zero m = pure []
repeat (suc n) m = do a ← m; rest ← repeat n m; pure (a ∷ rest)

Accepts-pid_check :
    (pid : Option ℕ) (nl_pid : ℕ) (after : Option ℕ)
    → Accepts pid nl_pid after
    → pid_check pid nl_pid ≡ ok after
Accepts-pid_check none nl_pid after a = rw a
Accepts-pid_check (some zero) nl_pid after a = rw a
Accepts-pid_check (some (suc n)) nl_pid after (same, a) = rw (same, a, ==_refl (suc n))

pub not_zero : (n : ℕ) → 1 ≤ n → (n == 0) ≡ false
not_zero n pos = ground arith

module _ {T P : Type 0} where
  -- The process that messages are taken from, before those messages and after them.
  abbrev pub AcceptsAll : Option ℕ → List (Nlmsghdr T P) → Option ℕ → Type 0
  AcceptsAll pid [] after = after ≡ pid
  AcceptsAll pid (m ∷ ms) after =
      (between : Option ℕ) × Accepts pid m.nl_pid between × AcceptsAll between ms after

module _ ⦃b : Buffering⦄ (k : Kernel) where
  -- The socket with that buffer and that process.
  abbrev pub with_queue : Host k → Option b.ReadBuffer → Option ℕ → Host k
  with_queue h buffer pid = record h { socket = record h.socket { buffer = buffer; pid = pid } }

module _ ⦃c : Libc⦄ ⦃b : Buffering⦄ (k : Kernel) {T P : Type 0} (t : Nl T) (p : Nl P) where
  -- A message that reads from the front of the buffer.
  pub dequeue_read :
      (buf_sz : Option ℕ) (h : Host k) (front xs rest : List ℕ) (hint left : Option ℕ)
      (m : Nlmsghdr T P) (after : Option ℕ)
      → h.socket.buffer ≡ some (b.reader front (xs ++ rest) hint)
      → Reads (Nlmsghdr.deserialize t p) hint xs m left
      → Accepts h.socket.pid m.nl_pid after
      → recv_nl k t p buf_sz h
        ≡ (ok m, with_queue k h (drained k (some (b.reader (front ++ xs) rest left))) after)
  unfolding recv_nl ◌>>=◌
  dequeue_read buf_sz h front xs rest hint left m after held read accepted =
      rw held
        (rw (read.at front rest) (rw (Accepts-pid_check h.socket.pid m.nl_pid after accepted) refl))

  -- The buffer that one answer of the kernel fills.
  pub fetched_bytes :
      (buf_sz : Option ℕ) (h : Host k) (xs : List ℕ) (w : k.World)
      → h.socket.buffer ≡ none
      → 1 ≤ length xs
      → k.recv h.socket.fd (unwrap_or buf_sz max_nl_length) 0 h.world ≡ (received xs, w)
      → recv_nl k t p buf_sz h
        ≡ recv_nl k t p buf_sz
            (record { socket = record h.socket { buffer = some (b.reader [] xs none) }; world = w })
  unfolding recv_nl ◌>>=◌ recv
  fetched_bytes buf_sz h xs w empty long answer =
      rw (empty, answer)
        (rw (not_zero (length xs) long) (rw (take-append_length xs, b.new_read_lem xs) refl))

module _ ⦃c : Libc⦄ ⦃b : Buffering⦄ {T P : Type 0} {t : Nl T} {p : Nl P} (tl : Fixed t 2)
    (pl : Payload p) where
  -- What one datagram of these messages holds.
  abbrev pub frames : List (Nlmsghdr T P) → List ℕ
  frames [] = []
  frames (m ∷ ms) = bytes tl pl m ++ frames ms

module _ ⦃c : Libc⦄ ⦃b : Buffering⦄ (k : Kernel) {T P : Type 0} {t : Nl T} {p : Nl P}
    (tl : Fixed t 2) (pl : Payload p) where
  -- What is left of the buffer where the messages are still to be read.
  abbrev pub queue : List ℕ → List (Nlmsghdr T P) → Option ℕ → Option b.ReadBuffer
  queue front ms hint = drained k (some (b.reader front (frames tl pl ms) hint))

  pub dequeue :
      (buf_sz : Option ℕ) (h : Host k) (front : List ℕ) (hint : Option ℕ) (m : Nlmsghdr T P)
      (ms : List (Nlmsghdr T P)) (after : Option ℕ)
      → h.socket.buffer ≡ some (b.reader front (frames tl pl (m ∷ ms)) hint)
      → IsValid tl pl m
      → Accepts h.socket.pid m.nl_pid after
      → recv_nl k t p buf_sz h
        ≡ (ok m, with_queue k h (queue (front ++ bytes tl pl m) ms (pl.after m.nl_payload)) after)
  dequeue buf_sz h front hint m ms after held v accepted =
      dequeue_read k t p buf_sz h front (bytes tl pl m) (frames tl pl ms) hint
        (pl.after m.nl_payload) m after held (deserialize-Reads tl pl m hint v) accepted

  pub at_end_long :
      (xs r f : List ℕ) (hint : Option ℕ)
      → 1 ≤ length xs
      → b.at_end (b.reader f (xs ++ r) hint) ≡ false
  at_end_long [] r f hint long = absurd (omega arith)
  at_end_long (x ∷ xs) r f hint long = b.at_end_cons f (xs ++ r) x hint

  pub queue-nil : (front : List ℕ) (hint : Option ℕ) → queue front [] hint ≡ none
  queue-nil front hint = rw (b.at_end_nil front hint)

  pub length-bytes_pos : (m : Nlmsghdr T P) → IsValid tl pl m → 1 ≤ length (bytes tl pl m)
  length-bytes_pos m v = omega (
    arith,
    length-bytes tl pl m v,
    size_lem tl pl m,
    alignto_bounds (Nlmsghdr.size t p m) (IsValid-IsSmall tl pl m v),
  )

  pub queue-cons :
      (front : List ℕ) (m : Nlmsghdr T P) (ms : List (Nlmsghdr T P)) (hint : Option ℕ)
      → IsValid tl pl m
      → queue front (m ∷ ms) hint ≡ some (b.reader front (frames tl pl (m ∷ ms)) hint)
  queue-cons front m ms hint v =
      rw (at_end_long (bytes tl pl m) (frames tl pl ms) front hint (length-bytes_pos m v))

  dequeue_all :
      (buf_sz : Option ℕ) (h : Host k) (front : List ℕ) (hint : Option ℕ) (ms : List (Nlmsghdr T P))
      (after : Option ℕ)
      → h.socket.buffer ≡ queue front ms hint
      → All (IsValid tl pl) ms
      → AcceptsAll h.socket.pid ms after
      → repeat (length ms) (recv_nl k t p buf_sz) h ≡ (ok ms, with_queue k h none after)
  unfolding repeat ◌>>=◌
  dequeue_all buf_sz h front hint [] after held v accepted =
      rw accepted (ap (λ q. (ok [], with_queue k h q h.socket.pid)) (held ∙ queue-nil front hint))
  dequeue_all buf_sz h front hint (m ∷ ms) after held (v, vs) (between, first, others) =
      let h' = with_queue k h (queue (front ++ bytes tl pl m) ms (pl.after m.nl_payload)) between in
      let read =
        dequeue buf_sz h front hint m ms between (held ∙ queue-cons front m ms hint v) v first in
      let others_read =
        dequeue_all buf_sz h' (front ++ bytes tl pl m) (pl.after m.nl_payload) ms after refl vs
          others in
      rw (read, others_read) refl

  -- The buffer that one answer of the kernel fills.
  pub fetched :
      (buf_sz : Option ℕ) (h : Host k) (m : Nlmsghdr T P) (ms : List (Nlmsghdr T P)) (w : k.World)
      → h.socket.buffer ≡ none
      → IsValid tl pl m
      → k.recv h.socket.fd (unwrap_or buf_sz max_nl_length) 0 h.world
        ≡ (received (frames tl pl (m ∷ ms)), w)
      → recv_nl k t p buf_sz h
        ≡ recv_nl k t p buf_sz (record {
          socket = record h.socket { buffer = some (b.reader [] (frames tl pl (m ∷ ms)) none) };
          world = w;
        })
  fetched buf_sz h m ms w empty v answer =
      fetched_bytes k t p buf_sz h (frames tl pl (m ∷ ms)) w empty
        (omega (arith, length-bytes_pos m v, length-append (bytes tl pl m) (frames tl pl ms)))
        answer

  -- A datagram of one message.
  pub recv_nl_one :
      (buf_sz : Option ℕ) (h : Host k) (m : Nlmsghdr T P) (w : k.World) (after : Option ℕ)
      → h.socket.buffer ≡ none
      → IsValid tl pl m
      → Accepts h.socket.pid m.nl_pid after
      → k.recv h.socket.fd (unwrap_or buf_sz max_nl_length) 0 h.world
        ≡ (received (frames tl pl (m ∷ [])), w)
      → recv_nl k t p buf_sz h ≡ (ok m, with_queue k (record h { world = w }) none after)
  recv_nl_one buf_sz h m w after empty v accepted answer =
      let filled : Host k = record {
        socket = record h.socket { buffer = some (b.reader [] (frames tl pl (m ∷ [])) none) };
        world = w;
      } in
      rw (fetched buf_sz h m [] w empty v answer) (
        rw (dequeue buf_sz filled [] none m [] after refl v accepted)
          (rw (queue-nil (bytes tl pl m) (pl.after m.nl_payload)) refl))

  -- One datagram of well-formed messages, which the kernel gives to a socket with no buffer, in one
  -- `recv` of the size that was asked for (32768 by default): as many calls of `recv_nl` give the
  -- messages in their order. The kernel is asked once, by the first. After them the buffer is gone, the
  -- process is as the messages leave it, where each of them is of a process that the socket takes at its
  -- turn, and the rest of the socket is as before.
  pub recv_nl_in_order :
      (buf_sz : Option ℕ) (h : Host k) (m : Nlmsghdr T P) (ms : List (Nlmsghdr T P)) (w : k.World)
      (after : Option ℕ)
      → h.socket.buffer ≡ none
      → All (IsValid tl pl) (m ∷ ms)
      → AcceptsAll h.socket.pid (m ∷ ms) after
      → k.recv h.socket.fd (unwrap_or buf_sz max_nl_length) 0 h.world
        ≡ (received (frames tl pl (m ∷ ms)), w)
      → repeat (length (m ∷ ms)) (recv_nl k t p buf_sz) h
        ≡ (ok (m ∷ ms), with_queue k (record h { world = w }) none after)
  unfolding repeat ◌>>=◌
  recv_nl_in_order buf_sz h m ms w after empty (v, vs) accepted answer =
      let filled : Host k = record {
        socket = record h.socket { buffer = some (b.reader [] (frames tl pl (m ∷ ms)) none) };
        world = w;
      } in
      rw (fetched buf_sz h m ms w empty v answer) (
        dequeue_all buf_sz filled [] none (m ∷ ms) after (sym (queue-cons [] m ms none v)) (v, vs)
          accepted)
