-- ===== src/Socket/Messages/Receive.antt =====
-- src/socket.rs, `recv_nl`: what it leaves of the socket, whatever the kernel gives.
pub mod Queue
pub mod Sound
pub mod Refused
use neli.Base.{
  ℕ, zero, suc, ◌≡◌, refl, sym, ◌∙◌, inl, inr, List, ◌==◌, ==_iff, Bool-cases, if◌then◌else◌,
}
use neli.Base.{Option, none, some, Bool, true, false}
use neli.Outcome.{
  Result, Exec, ok, err, panic, out_of_fuel, pure, lift, After, After-state, Ensures, Ensures-bind,
  Ensures-step, convert, map_err, ◌>>=◌, ◌>>◌,
}
use neli.Err.{NlError, IoError, bad_pid, nl_of_io}
use neli.Buffering.{Libc, Buffering}
use neli.Nl.{Nl}
use neli.Nlmsghdr.{Nlmsghdr}
use neli.Kernel.{Kernel}
use neli.Socket.{NlSocket, Host, Sys, ask, Method, this, set_buffer, set_pid}
use neli.Socket.Messages.{fill_buffer, take_message, recv_nl, got, pid_check, drained}

-- The process that messages are taken from, before a message of process `nl_pid` and after it.
abbrev pub Accepts : Option ℕ → ℕ → Option ℕ → Type 0
Accepts none nl_pid after = after ≡ none
Accepts (some zero) nl_pid after = after ≡ some nl_pid
Accepts (some (suc n)) nl_pid after = (nl_pid ≡ suc n) × (after ≡ some (suc n))

module _ ⦃b : Buffering⦄ (k : Kernel) where
  -- The descriptor and the sequence number are as in `h`.
  pub record Same (h h' : Host k) : Type 0 where
    pub fd : h'.socket.fd ≡ h.socket.fd
    pub seq : h'.socket.seq ≡ h.socket.seq

  -- And the process is.
  pub record Kept (h h' : Host k) : Type 0 where
    pub same : Same h h'
    pub pid : h'.socket.pid ≡ h.socket.pid

  -- With a message of process `nl_pid`, the process is the one that takes it.
  pub record Taken (h h' : Host k) (nl_pid : ℕ) : Type 0 where
    pub same : Same h h'
    pub accepted : Accepts h.socket.pid nl_pid h'.socket.pid

module _ ⦃b : Buffering⦄ (k : Kernel) where
  -- A call that has changed the world and the buffer at most.
  pub kept :
      {E A : Type 0} (m : Method k E A) (h h' : Host k)
      → Kept k h h'
      → (m h').1.socket.fd ≡ h'.socket.fd
      → (m h').1.socket.pid ≡ h'.socket.pid
      → (m h').1.socket.seq ≡ h'.socket.seq
      → Ensures m h' (λ _. Kept k h) (Kept k h)
  kept m h h' before fd pid seq = record {
    after = After-state (m h') (Kept k h) (record {
      same = record { fd = fd ∙ before.same.fd; seq = seq ∙ before.same.seq };
      pid = pid ∙ before.pid;
    });
  }

  pub Kept-refl : (h : Host k) → Kept k h h
  Kept-refl h = record { same = record { fd = refl; seq = refl }; pid = refl }

  got-Kept :
      (read : ℕ × List ℕ) (h h' : Host k)
      → Kept k h h'
      → Ensures (got k read) h' (λ _. Kept k h) (Kept k h)
  got-Kept (mem_read, mem) h h' before = elim (Bool-cases (mem_read == 0)) [
    | inl empty ↦ kept _ h h' before (rw empty refl) (rw empty refl) (rw empty refl)
    | inr some_read ↦ kept _ h h' before (rw some_read refl) (rw some_read refl) (rw some_read refl)
  ]

  fill_buffer-Kept :
      (buffer : Option b.ReadBuffer) (buf_sz : Option ℕ) (h : Host k)
      → Ensures (fill_buffer k buffer buf_sz) h (λ _. Kept k h) (Kept k h)
  fill_buffer-Kept (some buffer) buf_sz h = kept _ h h (Kept-refl h) refl refl refl
  fill_buffer-Kept none buf_sz h =
      Ensures-step _ _ _ _ refl
        (Ensures-bind _ _ (kept _ h h (Kept-refl h) refl refl refl) λ read h'. got-Kept read h h')

  pid_check-Accepts :
      (pid : Option ℕ) (nl_pid : ℕ) (h h' : Host k)
      → Kept k h h'
      → Ensures
          (lift (pid_check pid nl_pid))
          h'
          (λ after s. Kept k h s × Accepts pid nl_pid after)
          (Kept k h)
  pid_check-Accepts none nl_pid h h' before = record { after = (before, refl) }
  pid_check-Accepts (some zero) nl_pid h h' before = record { after = (before, refl) }
  pid_check-Accepts (some (suc n)) nl_pid h h' before = elim (Bool-cases (suc n == nl_pid)) [
    | inl same ↦ record { after = rw same (before, (sym ((==_iff (suc n) nl_pid).0 same), refl)) }
    | inr other ↦ record { after = rw other before }
  ]

module _ ⦃c : Libc⦄ ⦃b : Buffering⦄ (k : Kernel) {T P : Type 0} (t : Nl T) (p : Nl P) where
  take_message-Kept :
      (buffer : Option b.ReadBuffer) (h h' : Host k)
      → Kept k h h'
      → Ensures (take_message k t p buffer) h' (λ _. Kept k h) (Kept k h)
  take_message-Kept none h h' before = kept k _ h h' before refl refl refl
  take_message-Kept (some buffer) h h' before = kept k _ h h' before refl refl refl

  -- Whatever the buffer holds and the kernel gives, `recv_nl` gives a message only where the socket
  -- takes messages of its process: with no process set any, and none is stored; with process 0 any, and
  -- its process is stored; and else only those of the process that is set, which stays. Where
  -- it gives no message the process stays. The descriptor and the sequence number stay.
  pub recv_nl-Taken :
      (buf_sz : Option ℕ) (h : Host k)
      → Ensures (recv_nl k t p buf_sz) h (λ m h'. Taken k h h' m.nl_pid) (Kept k h)
  unfolding recv_nl
  recv_nl-Taken buf_sz h = Ensures-step _ _ _ _ refl (
      Ensures-bind _ _ (fill_buffer-Kept k h.socket.buffer buf_sz h) λ u h1 kept1.
        Ensures-step _ _ _ _ refl (
          Ensures-bind _ _ (take_message-Kept h1.socket.buffer h h1 kept1) λ m h2 kept2.
            Ensures-bind _ _ (pid_check-Accepts k h1.socket.pid m.nl_pid h h2 kept2)
              λ after h3 kept3. Ensures-step _ _ _ _ refl (
                Ensures-step _ _ _ _ refl (
                  Ensures-step _ _ _ _ refl (record {
                    after = record {
                      same = record { fd = kept3.0.same.fd; seq = kept3.0.same.seq };
                      accepted = rw kept1.pid at kept3.1;
                    };
                  })))))
