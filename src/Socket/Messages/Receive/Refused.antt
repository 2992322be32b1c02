-- ===== src/Socket/Messages/Receive/Refused.antt =====
-- src/socket.rs, `recv_nl`: a message of a process that the socket does not take.
use neli.Base.{ℕ, suc, ◌≡◌, refl, ==_iff, ◌==◌, Bool-cases, inl, inr}
use neli.Base.{Option, none, some, List, [], ◌∷◌, append-nil}
use neli.Outcome.{err, ◌>>=◌}
use neli.Err.{bad_pid, nl_of_de, de_of_io}
use neli.Buffering.{Libc, Buffering}
use neli.Nl.{Nl}
use neli.Nl.Laws.{Fixed, Payload}
use neli.Nlattr.Build.{unwrap_or}
use neli.Nlmsghdr.{Nlmsghdr}
use neli.Nlmsghdr.Errors.{nlmsghdr_empty}
use neli.Nlmsghdr.RoundTrip.{IsValid, bytes, deserialize-Reads}
use neli.Kernel.{Kernel, received}
use neli.Socket.{Host}
use neli.Socket.Messages.{recv_nl, pid_check, max_nl_length}
use neli.Socket.Messages.Receive.Queue.{frames, fetched}

refused : (own nl_pid : ℕ) → ¬ (suc own ≡ nl_pid) → pid_check (some (suc own)) nl_pid ≡ err bad_pid
refused own nl_pid other = elim (Bool-cases (suc own == nl_pid)) [
  | inl same ↦ absurd (other ((==_iff (suc own) nl_pid).0 same))
  | inr differs ↦ rw differs refl
]

module _ ⦃c : Libc⦄ ⦃b : Buffering⦄ (k : Kernel) {T P : Type 0} {t : Nl T} {p : Nl P}
    (tl : Fixed t 2) (pl : Payload p) where
  -- The socket whose buffer has been read to its end.
  abbrev pub spent : Host k → Nlmsghdr T P → k.World → Host k
  spent h m w = record {
    socket = record h.socket {
      buffer = some (b.reader (bytes tl pl m) [] (pl.after m.nl_payload));
    };
    world = w;
  }

  after_refusal :
      (buf_sz : Option ℕ) (h : Host k) (m : Nlmsghdr T P) (own : ℕ) (w : k.World)
      → h.socket.buffer ≡ none
      → h.socket.pid ≡ some (suc own)
      → ¬ (suc own ≡ m.nl_pid)
      → IsValid tl pl m
      → k.recv h.socket.fd (unwrap_or buf_sz max_nl_length) 0 h.world
        ≡ (received (bytes tl pl m), w)
      → recv_nl k t p buf_sz h ≡ (err bad_pid, spent h m w)
  unfolding recv_nl ◌>>=◌
  after_refusal buf_sz h m own w empty process other v answer =
      let answer' : k.recv h.socket.fd (unwrap_or buf_sz max_nl_length) 0 h.world
          ≡ (received (frames tl pl (m ∷ [])), w) =
        rw append-nil answer in
      let read = (deserialize-Reads tl pl m none v).at [] [] in
      rw (fetched k tl pl buf_sz h m [] w empty v answer')
        (rw read (rw (process, refused own m.nl_pid other) refl))

  stuck :
      (buf_sz : Option ℕ) (h : Host k) (front : List ℕ) (hint : Option ℕ)
      → h.socket.buffer ≡ some (b.reader front [] hint)
      → ((recv_nl k t p buf_sz h).0 ≡ err (nl_of_de (de_of_io b.eof)))
        × ((recv_nl k t p buf_sz h).1.world ≡ h.world)
  unfolding recv_nl ◌>>=◌
  stuck buf_sz h front hint held = rw (held, nlmsghdr_empty t p front hint) (refl, refl)

  -- A socket of one process, with no buffer, that the kernel gives one well-formed message of another:
  -- `recv_nl` refuses it with `BadPid` and keeps the buffer, of which nothing is left to read. So the
  -- next call fails at the end of the buffer, and the kernel is not asked.
  pub recv_nl_refused :
      (buf_sz : Option ℕ) (h : Host k) (m : Nlmsghdr T P) (own : ℕ) (w : k.World)
      → h.socket.buffer ≡ none
      → h.socket.pid ≡ some (suc own)
      → ¬ (suc own ≡ m.nl_pid)
      → IsValid tl pl m
      → k.recv h.socket.fd (unwrap_or buf_sz max_nl_length) 0 h.world
        ≡ (received (bytes tl pl m), w)
      → (recv_nl k t p buf_sz h ≡ (err bad_pid, spent h m w))
        × ((recv_nl k t p buf_sz (spent h m w)).0 ≡ err (nl_of_de (de_of_io b.eof)))
        × ((recv_nl k t p buf_sz (spent h m w)).1.world ≡ w)
  recv_nl_refused buf_sz h m own w empty process other v answer =
      let after = stuck buf_sz (spent h m w) (bytes tl pl m) (pl.after m.nl_payload) refl in
      (after_refusal buf_sz h m own w empty process other v answer, after.0, after.1)
