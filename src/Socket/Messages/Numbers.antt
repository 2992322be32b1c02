-- ===== src/Socket/Messages/Numbers.antt =====
-- src/socket.rs: the sequence number and the descriptor over any run of the methods of a socket,
-- whatever the kernel gives and whatever the messages are.
use neli.Base.{ℕ, suc, ◌+◌, ◌≡◌, refl, ◌∙◌, ap, arith}
use neli.Base.{Option, none, some, List}
use neli.Outcome.{ok, err}
use neli.Err.{NlError}
use neli.Buffering.{Libc, Buffering}
use neli.Nl.{Nl}
use neli.Consts.{var}
use neli.Consts.Messages.{genl_id}
use neli.Nlmsghdr.{Nlmsghdr}
use neli.Kernel.{Kernel}
use neli.Socket.{
  Host, ask, bind, set_mcast_groups, increment_seq, send, recv, block, nonblock, is_blocking,
}
use neli.Socket.Messages.{send_nl, recv_nl, recv_ack, next}
use neli.Socket.Messages.Send.{counted}
use neli.Socket.Messages.Receive.{Same, Kept}
use neli.Socket.Messages.Frame.{
  Counted, send_nl-Counted, recv_nl-Same, recv_ack-Same, bind-Same, next-Same, increment_seq-Same,
  set_mcast_groups-Same,
}
use neli.Socket.Resolve.{family, resolve_genl_family, resolve_nl_mcast_group}
use neli.Socket.Resolve.Laws.{request_for}
use neli.Socket.Resolve.Frame.{
  resolve_genl_family-Same, resolve_nl_mcast_group-Same, resolve_genl_family_unsent,
  resolve_nl_mcast_group_unsent,
}

module _ ⦃c : Libc⦄ ⦃b : Buffering⦄ (k : Kernel) where
  -- The calls on a socket that are made one after the other, and how many messages with a header they
  -- have sent. `send` and `recv` are those of bytes, which know nothing of numbers.
  pub data Run : Host k → ℕ → Host k → Type 1 where
    start : (h : Host k) → Run h 0 h
    sent :
        {h h' h'' : Host k} {n : ℕ} {T P : Type 0} (t : Nl T) (p : Nl P) (m : Nlmsghdr T P)
        → Run h n h'
        → send_nl k t p m h' ≡ (ok tt, h'')
        → Run h (suc n) h''
    unsent :
        {h h' h'' : Host k} {n : ℕ} {T P : Type 0} (t : Nl T) (p : Nl P) (m : Nlmsghdr T P)
        (e : NlError)
        → Run h n h'
        → send_nl k t p m h' ≡ (err e, h'')
        → Run h n h''
    took :
        {h h' : Host k} {n : ℕ} {T P : Type 0} (t : Nl T) (p : Nl P) (buf_sz : Option ℕ)
        → Run h n h'
        → Run h n (recv_nl k t p buf_sz h').1
    acknowledged : {h h' : Host k} {n : ℕ} → Run h n h' → Run h n (recv_ack k h').1
    bound :
        {h h' : Host k} {n : ℕ} (pid : Option ℕ) (groups : Option (List ℕ))
        → Run h n h'
        → Run h n (bind k pid groups h').1
    joined :
        {h h' : Host k} {n : ℕ} (groups : List ℕ)
        → Run h n h'
        → Run h n (set_mcast_groups k groups h').1
    iterated :
        {h h' : Host k} {n : ℕ} {T P : Type 0} (t : Nl T) (p : Nl P)
        → Run h n h'
        → Run h n (next k t p h').1
    incremented :
        {h h' : Host k} {n : ℕ}
        → Run h n h'
        → Run h n (record h' { socket = (increment_seq h'.socket).1 })
    sent_bytes :
        {h h' : Host k} {n : ℕ} (buf : List ℕ) (flags : ℕ)
        → Run h n h'
        → Run h n (ask k (send k h'.socket.fd buf flags) h').1
    took_bytes :
        {h h' : Host k} {n : ℕ} (len flags : ℕ)
        → Run h n h'
        → Run h n (ask k (recv k h'.socket.fd len flags) h').1
    blocked : {h h' : Host k} {n : ℕ} → Run h n h' → Run h n (ask k (block k h'.socket.fd) h').1
    unblocked :
        {h h' : Host k} {n : ℕ} → Run h n h' → Run h n (ask k (nonblock k h'.socket.fd) h').1
    queried :
        {h h' : Host k} {n : ℕ} → Run h n h' → Run h n (ask k (is_blocking k h'.socket.fd) h').1
    resolved :
        {h h' h'' : Host k} {n : ℕ} (name : List ℕ)
        → Run h n h'
        → send_nl k (var genl_id) family (request_for name) h' ≡ (ok tt, h'')
        → Run h (suc n) (resolve_genl_family k name h').1
    unresolved :
        {h h' h'' : Host k} {n : ℕ} (name : List ℕ) (e : NlError)
        → Run h n h'
        → send_nl k (var genl_id) family (request_for name) h' ≡ (err e, h'')
        → Run h n (resolve_genl_family k name h').1
    resolved_group :
        {h h' h'' : Host k} {n : ℕ} (name group : List ℕ)
        → Run h n h'
        → send_nl k (var genl_id) family (request_for name) h' ≡ (ok tt, h'')
        → Run h (suc n) (resolve_nl_mcast_group k name group h').1
    unresolved_group :
        {h h' h'' : Host k} {n : ℕ} (name group : List ℕ) (e : NlError)
        → Run h n h'
        → send_nl k (var genl_id) family (request_for name) h' ≡ (err e, h'')
        → Run h n (resolve_nl_mcast_group k name group h').1

  abbrev pub plus : ℕ → Option ℕ → Option ℕ
  plus n none = none
  plus n (some s) = some (s + n)

  plus_zero : (o : Option ℕ) → o ≡ plus 0 o
  plus_zero none = refl
  plus_zero (some s) = ap some (omega arith)

  counted-plus : (n : ℕ) (o : Option ℕ) → counted (plus n o) ≡ plus (suc n) o
  counted-plus n none = refl
  counted-plus n (some s) = ap some (omega arith)

  -- After `n` messages.
  pub record Since (h : Host k) (n : ℕ) (h' : Host k) : Type 0 where
    pub seq : h'.socket.seq ≡ plus n h.socket.seq
    pub fd : h'.socket.fd ≡ h.socket.fd

  follow : {h h' h'' : Host k} {n : ℕ} → Since h n h' → Same k h' h'' → Since h n h''
  follow since same = record { seq = same.seq ∙ since.seq; fd = same.fd ∙ since.fd }

  count : {h h' h'' : Host k} {n : ℕ} → Since h n h' → Counted k h' h'' → Since h (suc n) h''
  count {h} {n} since counts = record {
    seq = counts.seq ∙ (ap counted since.seq ∙ counted-plus n h.socket.seq);
    fd = counts.fd ∙ since.fd;
  }

  after_sent :
      {h h' : Host k} {T P : Type 0} (t : Nl T) (p : Nl P) (m : Nlmsghdr T P)
      → send_nl k t p m h ≡ (ok tt, h')
      → Counted k h h'
  after_sent {h} t p m done = rw done at ((send_nl-Counted k t p m h).after)

  after_error :
      {h h' : Host k} {T P : Type 0} (t : Nl T) (p : Nl P) (m : Nlmsghdr T P) (e : NlError)
      → send_nl k t p m h ≡ (err e, h')
      → Kept k h h'
  after_error {h} t p m e failed = rw failed at ((send_nl-Counted k t p m h).after)

  -- Over any run of `send_nl`, `recv_nl`, `recv_ack`, `next` of the iterator, `resolve_genl_family`,
  -- `resolve_nl_mcast_group`, `bind`, `set_mcast_groups`, `increment_seq`, `send`, `recv`, `block`,
  -- `nonblock` and `is_blocking`, of which no call panics while it sends a message, whatever the
  -- messages are and whatever the kernel gives: the descriptor stays, and the sequence number, where the
  -- socket keeps one, is the one at the start and one more for each message that was sent by `send_nl`,
  -- or by it to resolve a name. Messages that it could not send, the bytes of `send`, all that is
  -- received and `increment_seq` do not change the number.
  pub Run-Since : (h : Host k) (n : ℕ) (h' : Host k) → Run h n h' → Since h n h'
  Run-Since h n h' run = go run
    where
      go : {h h' : Host k} {n : ℕ} → Run h n h' → Since h n h'
      go (start h) = record { seq = plus_zero h.socket.seq; fd = refl }
      go (sent t p m run done) = count (go run) (after_sent t p m done)
      go (unsent t p m e run failed) =
          let kept = after_error t p m e failed in follow (go run) kept.same
      go (took t p buf_sz run) = follow (go run) (recv_nl-Same k t p buf_sz _)
      go (acknowledged run) = follow (go run) (recv_ack-Same k _)
      go (bound pid groups run) = follow (go run) (bind-Same k pid groups _)
      go (joined groups run) = follow (go run) (set_mcast_groups-Same k groups _)
      go (iterated t p run) = follow (go run) (next-Same k t p _)
      go (incremented run) = follow (go run) (increment_seq-Same k _)
      go (sent_bytes buf flags run) = follow (go run) (record { fd = refl; seq = refl })
      go (took_bytes len flags run) = follow (go run) (record { fd = refl; seq = refl })
      go (blocked run) = follow (go run) (record { fd = refl; seq = refl })
      go (unblocked run) = follow (go run) (record { fd = refl; seq = refl })
      go (queried run) = follow (go run) (record { fd = refl; seq = refl })
      go (resolved name run done) =
          follow (count (go run) (after_sent (var genl_id) family (request_for name) done))
            (resolve_genl_family-Same k name _ _ done)
      go (unresolved name e run failed) =
          let kept = after_error (var genl_id) family (request_for name) e failed in
          rw (resolve_genl_family_unsent k name _ _ e failed) (follow (go run) kept.same)
      go (resolved_group name group run done) =
          follow (count (go run) (after_sent (var genl_id) family (request_for name) done))
            (resolve_nl_mcast_group-Same k name group _ _ done)
      go (unresolved_group name group e run failed) =
          let kept = after_error (var genl_id) family (request_for name) e failed in
          rw (resolve_nl_mcast_group_unsent k name group _ _ e failed) (follow (go run) kept.same)
