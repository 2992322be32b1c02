-- ===== src/Socket/Messages.antt =====
-- src/socket.rs: `send_nl`, `recv_nl`, `recv_ack` and the iterator.
pub mod Send
pub mod Receive
pub mod Answer
pub mod Ack
pub mod Exchange
pub mod Frame
pub mod Numbers
use neli.Base.{ℕ, zero, suc, ◌+◌, ◌-◌, ◌%◌, ◌^◌, ltb, ◌==◌, ◌&&◌, if◌then◌else◌}
use neli.Base.{Option, none, some, List, [], ◌∷◌, Bool, true, false, take}
use neli.Outcome.{
  Result, ok, err, panic, out_of_fuel, pure, throw, abort, convert, lift, map_err, bind, ◌>>=◌,
  ◌>>◌,
}
use neli.Err.{NlError, msg, bad_pid, bad_seq, no_ack, nl_of_io, nl_of_ser, nl_of_de}
use neli.Buffering.{Libc, Buffering}
use neli.Nl.{Nl}
use neli.Consts.{var}
use neli.Consts.Messages.{Nlmsg, nlmsg}
use neli.Nlattr.Build.{unwrap_or}
use neli.Nlmsghdr
use neli.Nlmsghdr.{Nlmsghdr}
use neli.Nlmsgerr.{Nlmsgerr, nlmsgerr}
use neli.Kernel.{Kernel}
use neli.Socket.{Host, Method, this, ask, set_pid, set_seq, set_buffer, send, recv}

abbrev pub max_nl_length : ℕ
max_nl_length = 32768

-- The check of the process, and what is then stored for it.
abbrev pub pid_check : Option ℕ → ℕ → Result NlError (Option ℕ)
pid_check none nl_pid = ok none
pid_check (some zero) nl_pid = ok (some nl_pid)
pid_check (some (suc n)) nl_pid = if suc n == nl_pid then ok (some (suc n)) else err bad_pid

module _ {T P : Type 0} where
  abbrev pub with_seq : Option ℕ → Nlmsghdr T P → Nlmsghdr T P
  with_seq none m = m
  with_seq (some seq) m = record m { nl_seq = seq }

module _ ⦃c : Libc⦄ ⦃b : Buffering⦄ {T P : Type 0} (t : Nl T) (p : Nl P) where
  -- The bytes of a new buffer that the message is serialized to.
  unfoldable pub serialized : Nlmsghdr T P → Result NlError (List ℕ)
  serialized m =
      let (r, mem) = Nlmsghdr.serialize t p m (b.new_growable (some (Nlmsghdr.asize t p m))) in
      bind (map_err nl_of_ser r) λ _. ok (b.contents mem)

module _ ⦃b : Buffering⦄ (k : Kernel) where
  abbrev pub next_seq : Option ℕ → Method k NlError Unit
  next_seq none = pure tt
  next_seq (some seq) = if ltb (seq + 1) (2 ^ 32) then set_seq k (some (seq + 1)) else abort

  abbrev pub got : ℕ × List ℕ → Method k NlError Unit
  got (mem_read, mem) =
      if mem_read == 0
      then throw (msg "No data could be read from the socket")
      else set_buffer k (some (b.new_read (take mem_read mem)))

  -- Where no bytes are buffered, one `recv` fills the buffer.
  abbrev pub fill_buffer : Option b.ReadBuffer → Option ℕ → Method k NlError Unit
  fill_buffer (some buffer) buf_sz = pure tt
  fill_buffer none buf_sz = do
    self ← this k
    mem ← convert nl_of_io (ask k (recv k self.fd (unwrap_or buf_sz max_nl_length) 0))
    got mem

  -- A buffer that is read to its end is dropped.
  abbrev pub drained : Option b.ReadBuffer → Option b.ReadBuffer
  drained none = none
  drained (some buffer) = if b.at_end buffer then none else some buffer

module _ ⦃c : Libc⦄ ⦃b : Buffering⦄ (k : Kernel) {T P : Type 0} (t : Nl T) (p : Nl P) where
  unfoldable pub send_nl : Nlmsghdr T P → Method k NlError Unit
  unfolding serialized
  send_nl m = do
    self ← this k
    bytes ← lift (serialized t p (with_seq self.seq m))
    convert nl_of_io (ask k (send k self.fd bytes 0))
    next_seq k self.seq
    pure tt

  -- The buffer stays as `deserialize` leaves it, also on an error.
  abbrev pub take_message : Option b.ReadBuffer → Method k NlError (Nlmsghdr T P)
  take_message none h = (panic, h)
  take_message (some buffer) h =
      let (r, buffer') = Nlmsghdr.deserialize t p buffer in
      (map_err nl_of_de r, record h { socket = record h.socket { buffer = some buffer' } })

  unfoldable pub recv_nl : Option ℕ → Method k NlError (Nlmsghdr T P)
  recv_nl buf_sz = do
    self ← this k
    fill_buffer k self.buffer buf_sz
    self' ← this k
    m ← take_message self'.buffer
    pid ← lift (pid_check self'.pid m.nl_pid)
    set_pid k pid
    self'' ← this k
    set_buffer k (drained k self''.buffer)
    pure m

  abbrev pub yielded :
      Result NlError (Nlmsghdr T P) → Result NlError (Option (Result NlError (Nlmsghdr T P)))
  yielded (ok rn) = ok (some (ok rn))
  yielded (err e) = ok (some (err e))
  yielded panic = panic
  yielded out_of_fuel = out_of_fuel

  -- `NlMessageIter::next`
  unfoldable pub next : Method k NlError (Option (Result NlError (Nlmsghdr T P)))
  unfolding recv_nl
  next h = let (r, h') = recv_nl none h in (yielded r, h')

-- `-error as _`, on bit patterns
abbrev pub negated : ℕ → ℕ
negated error = (2 ^ 32 - error) % 2 ^ 32

abbrev pub is_error : Nlmsg → Bool
is_error Nlmsg.error = true
is_error Nlmsg.noop = false
is_error Nlmsg.done = false
is_error Nlmsg.overrun = false
is_error (Nlmsg.unrecognized_variant i) = false

module _ ⦃b : Buffering⦄ (k : Kernel) where
  abbrev pub seq_check : Option ℕ → ℕ → Method k NlError Unit
  seq_check none nl_seq = pure tt
  seq_check (some seq) nl_seq = if seq == nl_seq then pure tt else throw bad_seq

  abbrev pub rewound : Option b.ReadBuffer → Option b.ReadBuffer
  rewound none = none
  rewound (some buffer) = some (b.rewind buffer)

  -- The negation of the least `i32` panics.
  abbrev pub os_error : ℕ → Method k NlError Unit
  os_error error = if error == 2 ^ 31 then abort else throw (msg (k.os_error_text (negated error)))

  unfoldable pub handle_ack : Nlmsghdr Nlmsg (Nlmsgerr Nlmsg) → Method k NlError Unit
  handle_ack ack =
      if is_error ack.nl_type && ack.nl_payload.error == 0
      then (do self ← this k; seq_check self.seq ack.nl_seq)
      else (do
        self ← this k
        set_buffer k (rewound self.buffer)
        if is_error ack.nl_type then os_error ack.nl_payload.error else throw no_ack)

  -- An error of any kind in `recv_nl` is that there is no ack.
  abbrev pub on_ack : Result NlError (Nlmsghdr Nlmsg (Nlmsgerr Nlmsg)) → Method k NlError Unit
  unfolding handle_ack
  on_ack (ok ack) h = handle_ack ack h
  on_ack (err e) h = (err no_ack, h)
  on_ack panic h = (panic, h)
  on_ack out_of_fuel h = (out_of_fuel, h)

module _ ⦃c : Libc⦄ ⦃b : Buffering⦄ (k : Kernel) where
  unfoldable pub recv_ack : Method k NlError Unit
  unfolding recv_nl handle_ack
  recv_ack h = let (r, h') = recv_nl k (var nlmsg) (nlmsgerr (var nlmsg)) none h in on_ack k r h'
