-- ===== src/Socket/Stream.antt =====
-- src/socket.rs, `mod tokio`: the socket as a stream of messages. `PollEvented` of tokio, and the
-- reactor behind it, are parameters; that a descriptor is registered with the reactor is theirs.
pub mod Order
pub mod Waiting
use neli.Base.{ℕ, zero, suc, if◌then◌else◌, Option, none, some, List, take, Bool, true, false}
use neli.Outcome.{Result, Exec, ok, err, panic, out_of_fuel, pure, ◌>>=◌, ◌>>◌}
use neli.Err.{IoError, DeError}
use neli.Buffering.{Libc, Buffering}
use neli.Nl.{Nl}
use neli.Nlmsghdr
use neli.Nlmsghdr.{Nlmsghdr}
use neli.Kernel.{Kernel}
use neli.Socket.{NlSocket, Sys, is_blocking, nonblock, send, recv}
use neli.Socket.Messages.{max_nl_length}

pub data Poll (A : Type 0) : Type 0 where
  pending : Poll A
  ready : A → Poll A

-- `new`, and `poll_read` into a slice of zeros: how many bytes it read, and the slice
pub record Reactor ⦃b : Buffering⦄ (k : Kernel) : Type 1 where
  pub PollEvented : Type 0
  pub wrap : NlSocket → Sys k PollEvented
  pub poll_read : ℕ → PollEvented → k.World → Poll (Result IoError (ℕ × List ℕ)) × k.World

module _ ⦃c : Libc⦄ ⦃b : Buffering⦄ (k : Kernel) where
  abbrev made_nonblocking : ℕ → Bool → Sys k Unit
  made_nonblocking fd true = nonblock k fd
  made_nonblocking fd false = pure tt

  unfoldable pub ensure_nonblocking : ℕ → Sys k Unit
  ensure_nonblocking fd = do blocking ← is_blocking k fd; made_nonblocking fd blocking

  -- `io::Read` and `io::Write`
  unfoldable pub read : NlSocket → ℕ → Sys k (ℕ × List ℕ)
  unfolding ensure_nonblocking
  read self len = do ensure_nonblocking self.fd; recv k self.fd len 0

  unfoldable pub write : NlSocket → List ℕ → Sys k ℕ
  unfolding ensure_nonblocking
  write self buf = do ensure_nonblocking self.fd; send k self.fd buf 0

  unfoldable pub flush : Sys k Unit
  flush = pure tt

module _ ⦃b : Buffering⦄ {k : Kernel} (r : Reactor k) where
  -- `tokio::NlSocket`
  pub record StreamSocket : Type 0 where
    pub socket : r.PollEvented
    pub buffer : Option b.ReadBuffer

  pub record StreamHost : Type 0 where
    pub socket : StreamSocket
    pub world : k.World

  unfoldable pub new : ⦃c : Libc⦄ → NlSocket → Sys k StreamSocket
  unfolding ensure_nonblocking
  new socket = do
    ensure_nonblocking k socket.fd
    evented ← r.wrap socket
    let self : StreamSocket = record { socket = evented; buffer = none }
    pure self

  unfoldable pub empty : StreamSocket → Bool
  empty self = elim self.buffer [ some buf ↦ b.at_end buf | none ↦ true ]

  -- `AsyncRead`
  unfoldable pub poll_read : ℕ → StreamHost → Poll (Result IoError (ℕ × List ℕ)) × StreamHost
  poll_read len h =
      let (polled, w) = r.poll_read len h.socket.socket h.world in (polled, record h { world = w })

module _ ⦃c : Libc⦄ ⦃b : Buffering⦄ {k : Kernel} (r : Reactor k) {T P : Type 0} (t : Nl T)
    (p : Nl P) where
  abbrev pub Item : Type 0
  Item = Result IoError (Nlmsghdr T P)

  abbrev pub Polls : Type 0
  Polls = Exec (StreamHost r) IoError (Poll (Option Item))

  abbrev pub with_buffer : Option b.ReadBuffer → StreamHost r → StreamHost r
  with_buffer buffer h = record h { socket = record h.socket { buffer = buffer } }

  -- Every error in a message is `InvalidData`.
  abbrev pub item_of : Result DeError (Nlmsghdr T P) → Result IoError (Poll (Option Item))
  item_of (ok m) = ok (ready (some (ok m)))
  item_of (err e) = ok (ready (some (err "invalid data")))
  item_of panic = panic
  item_of out_of_fuel = out_of_fuel

  abbrev pub next_item : Option b.ReadBuffer → Polls
  next_item none h = (ok (ready (some (err "unexpected end of file"))), h)
  next_item (some buf) h =
      let (m, buf') = Nlmsghdr.deserialize t p buf in (item_of m, with_buffer (some buf') h)

  abbrev pub filled : Poll (Result IoError (ℕ × List ℕ)) → Polls
  filled pending h = (ok pending, h)
  filled (ready (err e)) h = (ok (ready (some (err e))), h)
  filled (ready (ok (zero, mem))) h = (ok (ready none), h)
  filled (ready (ok (suc i, mem))) h =
      let buffer = some (b.new_read (take (suc i) mem)) in next_item buffer (with_buffer buffer h)
  filled (ready panic) h = (panic, h)
  filled (ready out_of_fuel) h = (out_of_fuel, h)

  unfoldable pub poll_next : Polls
  unfolding empty
  poll_next h =
      let (polled, w) = r.poll_read max_nl_length h.socket.socket h.world in
      if empty r h.socket
      then filled polled (record h { world = w })
      else next_item h.socket.buffer h
