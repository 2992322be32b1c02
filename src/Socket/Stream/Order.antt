-- ===== src/Socket/Stream/Order.antt =====
-- src/socket.rs, `poll_next` on well-formed bytes: the messages come in their order, of any process.
use neli.Base.{ℕ, ◌≤◌, ◌≡◌, refl, arith, true, Option, none, some}
use neli.Base.{List, [], ◌∷◌, ◌++◌, map, length, take-append_length, length-append}
use neli.Outcome.{Result, ok, ◌>>=◌}
use neli.Err.{IoError}
use neli.Buffering.{Libc, Buffering, All}
use neli.Nl.{Nl}
use neli.Nl.Laws.{Fixed, Payload}
use neli.Nlmsghdr.{Nlmsghdr}
use neli.Nlmsghdr.RoundTrip.{IsValid, bytes, deserialize-Reads}
use neli.Kernel.{Kernel}
use neli.Socket.Messages.{max_nl_length}
use neli.Socket.Messages.Receive.Queue.{repeat, frames, at_end_long, length-bytes_pos}
use neli.Socket.Stream.{
  Reactor, Poll, StreamHost, ready, with_buffer, filled, next_item, empty, poll_next,
}

module _ ⦃c : Libc⦄ ⦃b : Buffering⦄ {k : Kernel} (r : Reactor k) {T P : Type 0} {t : Nl T}
    {p : Nl P} (tl : Fixed t 2) (pl : Payload p) where
  -- A buffer that still holds well-formed messages: the first is the next item, the others stay in the
  -- buffer, and nothing is read.
  pub poll_next_lem :
      (h : StreamHost r) (front : List ℕ) (hint : Option ℕ) (m : Nlmsghdr T P)
      (ms : List (Nlmsghdr T P))
      → h.socket.buffer ≡ some (b.reader front (frames tl pl (m ∷ ms)) hint)
      → IsValid tl pl m
      → poll_next r t p h ≡ (
        ok (ready (some (ok m))),
        with_buffer r t p
            (some (b.reader (front ++ bytes tl pl m) (frames tl pl ms) (pl.after m.nl_payload)))
            h,
      )
  unfolding poll_next empty
  poll_next_lem h front hint m ms held v = rw (held) (
      rw
        (at_end_long k tl pl (bytes tl pl m) (frames tl pl ms) front hint
          (length-bytes_pos k tl pl m v))
        (rw ((deserialize-Reads tl pl m hint v).at front (frames tl pl ms)) refl))

  abbrev pub item : Nlmsghdr T P → Poll (Option (Result IoError (Nlmsghdr T P)))
  item m = ready (some (ok m))

  -- The end of a run of polls: the items, a buffer with nothing left, and the world.
  pub record Yields (n : ℕ) (h : StreamHost r) (ms : List (Nlmsghdr T P)) (w : k.World)
      : Type 0 where
    pub end : StreamHost r
    pub items : repeat n (poll_next r t p) h ≡ (ok (map item ms), end)
    pub spent : empty r end.socket ≡ true
    pub same_world : end.world ≡ w

  drain :
      (h : StreamHost r) (front : List ℕ) (hint : Option ℕ) (ms : List (Nlmsghdr T P))
      → h.socket.buffer ≡ some (b.reader front (frames tl pl ms) hint)
      → All (IsValid tl pl) ms
      → Yields (length ms) h ms h.world
  unfolding repeat ◌>>=◌ empty
  drain h front hint [] held v = record {
    end = h;
    items = refl;
    spent = rw held (b.at_end_nil front hint);
    same_world = refl;
  }
  drain h front hint (m ∷ ms) held (v, vs) =
      let h' =
        with_buffer r t p
          (some (b.reader (front ++ bytes tl pl m) (frames tl pl ms) (pl.after m.nl_payload))) h in
      let others = drain h' (front ++ bytes tl pl m) (pl.after m.nl_payload) ms refl vs in
      record {
        end = others.end;
        items = rw (poll_next_lem h front hint m ms held v, others.items) refl;
        spent = others.spent;
        same_world = others.same_world;
      }

  filled_lem :
      (xs rest : List ℕ) (h : StreamHost r)
      → 1 ≤ length xs
      → filled r t p (ready (ok (length xs, xs ++ rest))) h
        ≡ next_item r t p
            (some (b.reader [] xs none))
            (with_buffer r t p (some (b.reader [] xs none)) h)
  filled_lem [] rest h long = absurd (omega arith)
  filled_lem (x ∷ xs) rest h long =
      rw (take-append_length (x ∷ xs) rest) (rw (b.new_read_lem (x ∷ xs)) refl)

  first_poll :
      (h : StreamHost r) (m : Nlmsghdr T P) (ms : List (Nlmsghdr T P)) (rest : List ℕ) (w : k.World)
      → h.socket.buffer ≡ none
      → IsValid tl pl m
      → r.poll_read max_nl_length h.socket.socket h.world
        ≡ (ready (ok (length (frames tl pl (m ∷ ms)), frames tl pl (m ∷ ms) ++ rest)), w)
      → poll_next r t p h
        ≡ poll_next r t p (
            with_buffer r t p
              (some (b.reader [] (frames tl pl (m ∷ ms)) none))
              (record h { world = w }))
  unfolding poll_next empty
  first_poll h m ms rest w none_left v read =
      let xs = frames tl pl (m ∷ ms) in
      let long : 1 ≤ length xs =
        omega
          (arith, length-bytes_pos k tl pl m v, length-append (bytes tl pl m) (frames tl pl ms)) in
      rw (none_left, read)
        (rw (filled_lem xs rest (with_buffer r t p none (record h { world = w })) long) (
          rw
            (at_end_long k tl pl (bytes tl pl m) (frames tl pl ms) [] none
              (length-bytes_pos k tl pl m v))
            refl))

  -- A stream with no buffer, whose reactor reads one datagram of well-formed messages of any
  -- processes: as many polls give the messages in their order, and what they leave is an empty
  -- buffer. The reactor is asked once, by the first.
  pub poll_next_in_order :
      (h : StreamHost r) (m : Nlmsghdr T P) (ms : List (Nlmsghdr T P)) (rest : List ℕ) (w : k.World)
      → h.socket.buffer ≡ none
      → All (IsValid tl pl) (m ∷ ms)
      → r.poll_read max_nl_length h.socket.socket h.world
        ≡ (ready (ok (length (frames tl pl (m ∷ ms)), frames tl pl (m ∷ ms) ++ rest)), w)
      → Yields (length (m ∷ ms)) h (m ∷ ms) w
  unfolding repeat ◌>>=◌
  poll_next_in_order h m ms rest w none_left (v, vs) read =
      let xs = frames tl pl (m ∷ ms) in
      let h' = with_buffer r t p (some (b.reader [] xs none)) (record h { world = w }) in
      let held = drain h' [] none (m ∷ ms) refl (v, vs) in
      record {
        end = held.end;
        items = rw (first_poll h m ms rest w none_left v read) held.items;
        spent = held.spent;
        same_world = held.same_world;
      }
