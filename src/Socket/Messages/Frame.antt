-- ===== src/Socket/Messages/Frame.antt =====
-- src/socket.rs: what the methods of a socket leave of its descriptor and its sequence number, whatever
-- the kernel gives and whatever the messages are.
use neli.Base.{ℕ, ◌+◌, ◌^◌, ◌≡◌, refl, sym, arith, ◌∙◌, ap, ltb, ◌==◌, Bool-cases, inl, inr, ◌⊎◌}
use neli.Base.{Option, none, some, List, true, false}
use neli.Outcome.{
  Result, ok, err, panic, out_of_fuel, After-state, After-all, Ensures, Ensures-bind, Ensures-step,
  ◌>>=◌,
}
use neli.Err.{NlError}
use neli.Buffering.{Libc, Buffering}
use neli.Nl.{Nl}
use neli.Consts.{var}
use neli.Consts.Messages.{Nlmsg, nlmsg}
use neli.Nlmsghdr.{Nlmsghdr}
use neli.Nlmsgerr.{Nlmsgerr, nlmsgerr}
use neli.Kernel.{Kernel}
use neli.Socket.{Host, increment_seq, Method, bind, join, set_mcast_groups}
use neli.Socket.Messages.{send_nl, recv_nl, recv_ack, next, next_seq, on_ack, handle_ack, is_error}
use neli.Socket.Messages.Send.{counted}
use neli.Socket.Messages.Receive.{Same, Kept, kept, Kept-refl, recv_nl-Taken}
use neli.Socket.Messages.Ack.{seq_check_lem, os_error-host}

module _ ⦃b : Buffering⦄ (k : Kernel) where
  -- The sum that is not stored.
  pub increment_seq-Same :
      (h : Host k) → Same k h (record h { socket = (increment_seq h.socket).1 })
  unfolding increment_seq
  increment_seq-Same h = ground arith

  -- The number of `h'` is one more than that of `h`, if there is one.
  pub record Counted (h h' : Host k) : Type 0 where
    pub fd : h'.socket.fd ≡ h.socket.fd
    pub seq : h'.socket.seq ≡ counted h.socket.seq

  next_seq-Counted :
      (seq : Option ℕ) (h h' : Host k)
      → Kept k h h'
      → seq ≡ h.socket.seq
      → Ensures (next_seq k seq) h' (λ _. Counted h) (Kept k h)
  next_seq-Counted none h h' before same = record {
    after = record { fd = before.same.fd; seq = before.same.seq ∙ (sym same ∙ ap counted same) };
  }
  next_seq-Counted (some s) h h' before same = elim (Bool-cases (ltb (s + 1) (2 ^ 32))) [
    | inl below ↦ record {
      after = rw below (record { fd = before.same.fd; seq = ap counted same });
    }
    | inr last ↦ record { after = rw last before }
  ]

module _ ⦃c : Libc⦄ ⦃b : Buffering⦄ (k : Kernel) {T P : Type 0} (t : Nl T) (p : Nl P) where
  pub send_nl-Counted :
      (m : Nlmsghdr T P) (h : Host k) → Ensures (send_nl k t p m) h (λ _. Counted k h) (Kept k h)
  unfolding send_nl
  send_nl-Counted m h = Ensures-step _ _ _ _ refl (
      Ensures-bind _ _ (kept k _ h h (Kept-refl k h) refl refl refl) λ bytes h1 kept1.
        Ensures-bind _ _ (kept k _ h h1 kept1 refl refl refl) λ sent h2 kept2.
          Ensures-bind _ _ (next_seq-Counted k h.socket.seq h h2 kept2 refl)
            λ u h3 counted3. record { after = counted3 })

  pub recv_nl-Same : (buf_sz : Option ℕ) (h : Host k) → Same k h (recv_nl k t p buf_sz h).1
  recv_nl-Same buf_sz h =
      After-all (recv_nl k t p buf_sz h) (Same k h) (recv_nl-Taken k t p buf_sz h).after
        (λ m h' taken. taken.same) (λ h' kept. kept.same)

  pub next-Same : (h : Host k) → Same k h (next k t p h).1
  unfolding next
  next-Same h = recv_nl-Same none h

module _ ⦃c : Libc⦄ ⦃b : Buffering⦄ (k : Kernel) where
  handle_ack-Same :
      (ack : Nlmsghdr Nlmsg (Nlmsgerr Nlmsg)) (h : Host k) → Same k h (handle_ack k ack h).1
  unfolding handle_ack ◌>>=◌
  handle_ack-Same ack h =
      go (Bool-cases (is_error ack.nl_type)) (Bool-cases (ack.nl_payload.error == 0))
    where
      go :
          ((is_error ack.nl_type ≡ true) ⊎ (is_error ack.nl_type ≡ false))
          → ((ack.nl_payload.error == 0) ≡ true) ⊎ ((ack.nl_payload.error == 0) ≡ false)
          → Same k h (handle_ack k ack h).1
      go (inr other) number = rw other (record { fd = refl; seq = refl })
      go (inl error) (inl zeroed) =
          rw (error, zeroed)
            (rw (seq_check_lem k h.socket.seq ack.nl_seq h) (record { fd = refl; seq = refl }))
      go (inl error) (inr number) =
          rw (error, number)
            (rw (os_error-host k ack.nl_payload.error) (record { fd = refl; seq = refl }))

  Same-trans : {h h' h'' : Host k} → Same k h h' → Same k h' h'' → Same k h h''
  Same-trans first second = record { fd = second.fd ∙ first.fd; seq = second.seq ∙ first.seq }

  on_ack-Same :
      (r : Result NlError (Nlmsghdr Nlmsg (Nlmsgerr Nlmsg))) (h : Host k)
      → Same k h (on_ack k r h).1
  unfolding on_ack
  on_ack-Same (ok ack) h = handle_ack-Same ack h
  on_ack-Same (err e) h = record { fd = refl; seq = refl }
  on_ack-Same panic h = record { fd = refl; seq = refl }
  on_ack-Same out_of_fuel h = record { fd = refl; seq = refl }

  pub stays :
      {E A : Type 0} (m : Method k E A) (h h' : Host k)
      → Same k h h'
      → Same k h' (m h').1
      → Ensures m h' (λ _. Same k h) (Same k h)
  stays m h h' before step = record {
    after = After-state (m h') (Same k h) (Same-trans before step);
  }

module _ ⦃c : Libc⦄ ⦃b : Buffering⦄ (k : Kernel) where
  pub recv_ack-Same : (h : Host k) → Same k h (recv_ack k h).1
  unfolding recv_ack
  recv_ack-Same h =
      let (r, h') = recv_nl k (var nlmsg) (nlmsgerr (var nlmsg)) none h in
      Same-trans k (recv_nl-Same k (var nlmsg) (nlmsgerr (var nlmsg)) none h) (on_ack-Same k r h')

  set_mcast_groups-Ensures :
      (groups : List ℕ) (h h' : Host k)
      → Same k h h'
      → Ensures (set_mcast_groups k groups) h' (λ _. Same k h) (Same k h)
  unfolding set_mcast_groups
  set_mcast_groups-Ensures groups h h' before =
      Ensures-bind _ _ (stays k _ h h' before (record { fd = refl; seq = refl })) λ grps h1 same1.
        Ensures-step _ _ _ _ refl (
          Ensures-bind _ _ (stays k _ h h1 same1 (record { fd = refl; seq = refl })) λ u h2 same2.
            Ensures-step _ _ _ _ refl
              (record { after = record { fd = same2.fd; seq = same2.seq } }))

  pub set_mcast_groups-Same :
      (groups : List ℕ) (h : Host k) → Same k h (set_mcast_groups k groups h).1
  set_mcast_groups-Same groups h =
      After-all (set_mcast_groups k groups h) (Same k h)
        (set_mcast_groups-Ensures groups h h (record { fd = refl; seq = refl })).after
        (λ _ _ same. same) (λ _ same. same)

  join-Same :
      (groups : Option (List ℕ)) (h h' : Host k)
      → Same k h h'
      → Ensures (join k groups) h' (λ _. Same k h) (Same k h)
  unfolding join
  join-Same none h h' before = stays k _ h h' before (record { fd = refl; seq = refl })
  join-Same (some groups) h h' before =
      Ensures-bind _ _ (set_mcast_groups-Ensures groups h h' before)
        λ u h1 same1. record { after = same1 }

  bind-Ensures :
      (pid : Option ℕ) (groups : Option (List ℕ)) (h : Host k)
      → Ensures (bind k pid groups) h (λ _. Same k h) (Same k h)
  unfolding bind
  bind-Ensures pid groups h = Ensures-step _ _ _ _ refl (
      Ensures-step _ _ _ _ refl (
        Ensures-bind _ _
          (stays k _ h _ (record { fd = refl; seq = refl }) (record { fd = refl; seq = refl }))
          λ i h1 same1. join-Same groups h h1 same1))

  pub bind-Same :
      (pid : Option ℕ) (groups : Option (List ℕ)) (h : Host k) → Same k h (bind k pid groups h).1
  bind-Same pid groups h =
      After-all (bind k pid groups h) (Same k h) (bind-Ensures pid groups h).after
        (λ _ _ same. same) (λ _ same. same)
