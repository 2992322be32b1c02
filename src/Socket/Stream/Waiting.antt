-- ===== src/Socket/Stream/Waiting.antt =====
-- src/socket.rs, `poll_next` where nothing has arrived yet.
use neli.Base.{ℕ, zero, suc, ◌≡◌, refl, ap, none, List, [], ◌∷◌, ◌++◌, length, replicate}
use neli.Outcome.{ok, ◌>>=◌}
use neli.Buffering.{Libc, Buffering, All}
use neli.Nl.{Nl}
use neli.Nl.Laws.{Fixed, Payload}
use neli.Nlmsghdr.{Nlmsghdr}
use neli.Nlmsghdr.RoundTrip.{IsValid}
use neli.Kernel.{Kernel}
use neli.Socket.Messages.{max_nl_length}
use neli.Socket.Messages.Receive.Queue.{repeat, frames}
use neli.Socket.Stream.{Reactor, StreamHost, pending, ready, poll_next, empty}
use neli.Socket.Stream.Order.{Yields, poll_next_in_order}

module _ ⦃c : Libc⦄ ⦃b : Buffering⦄ {k : Kernel} (r : Reactor k) {T P : Type 0} {t : Nl T}
    {p : Nl P} (tl : Fixed t 2) (pl : Payload p) where
  -- The reactor has nothing for `n` polls, from one world to another.
  abbrev pub Pends : ℕ → r.PollEvented → k.World → k.World → Type 0
  Pends zero socket w w' = w ≡ w'
  Pends (suc n) socket w w' =
      (between : k.World) × (r.poll_read max_nl_length socket w ≡ (pending, between))
      × Pends n socket between w'

  pend :
      (h : StreamHost r) (w : k.World)
      → h.socket.buffer ≡ none
      → r.poll_read max_nl_length h.socket.socket h.world ≡ (pending, w)
      → poll_next r t p h ≡ (ok pending, record h { world = w })
  unfolding poll_next empty
  pend h w none_left nothing = rw (none_left, nothing) refl

  pend_all :
      (n : ℕ) (h : StreamHost r) (w : k.World)
      → h.socket.buffer ≡ none
      → Pends n h.socket.socket h.world w
      → repeat n (poll_next r t p) h ≡ (ok (replicate n pending), record h { world = w })
  unfolding repeat ◌>>=◌
  pend_all zero h w none_left same = ap (λ v. (ok [], record h { world = v })) same
  pend_all (suc n) h w none_left (between, nothing, later) =
      rw (pend h between none_left nothing)
        (rw (pend_all n (record h { world = between }) w none_left later) refl)

  -- The end of a run of polls that first wait.
  pub record Delivers (n : ℕ) (h : StreamHost r) (ms : List (Nlmsghdr T P)) (w w' : k.World)
      : Type 0 where
    pub waited : repeat n (poll_next r t p) h ≡ (ok (replicate n pending), record h { world = w })
    pub delivered : Yields r tl pl (length ms) (record h { world = w }) ms w'

  -- However often the reactor has nothing for a stream with no buffer, each of these polls is pending
  -- and changes only the world; and once the reactor reads a datagram of well-formed messages, as many
  -- polls give these messages in their order.
  pub poll_next-Delivers :
      (n : ℕ) (h : StreamHost r) (m : Nlmsghdr T P) (ms : List (Nlmsghdr T P)) (rest : List ℕ)
      (w w' : k.World)
      → h.socket.buffer ≡ none
      → All (IsValid tl pl) (m ∷ ms)
      → Pends n h.socket.socket h.world w
      → r.poll_read max_nl_length h.socket.socket w
        ≡ (ready (ok (length (frames tl pl (m ∷ ms)), frames tl pl (m ∷ ms) ++ rest)), w')
      → Delivers n h (m ∷ ms) w w'
  poll_next-Delivers n h m ms rest w w' none_left v waits read = record {
    waited = pend_all n h w none_left waits;
    delivered = poll_next_in_order r tl pl (record h { world = w }) m ms rest w' none_left v read;
  }
