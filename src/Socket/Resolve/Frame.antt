-- ===== src/Socket/Resolve/Frame.antt =====
-- src/socket.rs: what `resolve_genl_family` and `resolve_nl_mcast_group` leave of the descriptor and
-- the sequence number, by what becomes of the request that they send.
use neli.Base.{ℕ, ◌≡◌, refl, none, List}
use neli.Outcome.{ok, err, After-all, Ensures, Ensures-bind, ◌>>=◌, ◌>>◌, pure}
use neli.Err.{NlError}
use neli.Buffering.{Libc, Buffering}
use neli.Consts.{var}
use neli.Consts.Messages.{genl_id}
use neli.Kernel.{Kernel}
use neli.Socket.{Host, Method}
use neli.Socket.Messages.{send_nl, recv_nl, recv_ack}
use neli.Socket.Messages.Receive.{Same}
use neli.Socket.Messages.Frame.{recv_nl-Same, recv_ack-Same, stays}
use neli.Socket.Resolve.{
  Family, family, get_genl_family, resolve_genl_family, resolve_nl_mcast_group,
}
use neli.Socket.Resolve.Laws.{request_for, family_request_lem}

module _ ⦃c : Libc⦄ ⦃b : Buffering⦄ (k : Kernel) where
  -- What follows the request.
  abbrev reply_and_ack : Method k NlError Family
  reply_and_ack = do reply ← recv_nl k (var genl_id) family none; recv_ack k; pure reply

  reply_and_ack-Same : (h : Host k) → Ensures reply_and_ack h (λ _. Same k h) (Same k h)
  reply_and_ack-Same h =
      Ensures-bind _ _
        (stays k _ h h (record { fd = refl; seq = refl })
          (recv_nl-Same k (var genl_id) family none h))
        λ reply h1 same1.
          Ensures-bind _ _ (stays k _ h h1 same1 (recv_ack-Same k h1))
            λ u h2 same2. record { after = same2 }

  get_genl_family_sent :
      (name : List ℕ) (h h1 : Host k)
      → send_nl k (var genl_id) family (request_for name) h ≡ (ok tt, h1)
      → get_genl_family k name h ≡ reply_and_ack h1
  unfolding get_genl_family ◌>>=◌
  get_genl_family_sent name h h1 sent = rw (family_request_lem name, sent) refl

  get_genl_family_unsent :
      (name : List ℕ) (h h1 : Host k) (e : NlError)
      → send_nl k (var genl_id) family (request_for name) h ≡ (err e, h1)
      → get_genl_family k name h ≡ (err e, h1)
  unfolding get_genl_family ◌>>=◌
  get_genl_family_unsent name h h1 e unsent = rw (family_request_lem name, unsent) refl

  gets-Same :
      (name : List ℕ) (h h1 : Host k)
      → send_nl k (var genl_id) family (request_for name) h ≡ (ok tt, h1)
      → Ensures (get_genl_family k name) h (λ _. Same k h1) (Same k h1)
  gets-Same name h h1 sent = record {
    after = rw (get_genl_family_sent name h h1 sent) ((reply_and_ack-Same h1).after);
  }

  pub resolve_genl_family-Same :
      (name : List ℕ) (h h1 : Host k)
      → send_nl k (var genl_id) family (request_for name) h ≡ (ok tt, h1)
      → Same k h1 (resolve_genl_family k name h).1
  unfolding resolve_genl_family
  resolve_genl_family-Same name h h1 sent =
      After-all (resolve_genl_family k name h) (Same k h1)
        (Ensures-bind _ _ (gets-Same name h h1 sent)
          λ reply h2 same2. stays k _ h1 h2 same2 (record { fd = refl; seq = refl })).after
        (λ _ _ same. same) (λ _ same. same)

  pub resolve_nl_mcast_group-Same :
      (name group : List ℕ) (h h1 : Host k)
      → send_nl k (var genl_id) family (request_for name) h ≡ (ok tt, h1)
      → Same k h1 (resolve_nl_mcast_group k name group h).1
  unfolding resolve_nl_mcast_group
  resolve_nl_mcast_group-Same name group h h1 sent =
      After-all (resolve_nl_mcast_group k name group h) (Same k h1)
        (Ensures-bind _ _ (gets-Same name h h1 sent) λ reply h2 same2.
          Ensures-bind _ _ (stays k _ h1 h2 same2 (record { fd = refl; seq = refl }))
            λ groups h3 same3. stays k _ h1 h3 same3 (record { fd = refl; seq = refl })).after
        (λ _ _ same. same) (λ _ same. same)

  pub resolve_genl_family_unsent :
      (name : List ℕ) (h h1 : Host k) (e : NlError)
      → send_nl k (var genl_id) family (request_for name) h ≡ (err e, h1)
      → resolve_genl_family k name h ≡ (err e, h1)
  unfolding resolve_genl_family ◌>>=◌
  resolve_genl_family_unsent name h h1 e unsent =
      rw (get_genl_family_unsent name h h1 e unsent) refl

  pub resolve_nl_mcast_group_unsent :
      (name group : List ℕ) (h h1 : Host k) (e : NlError)
      → send_nl k (var genl_id) family (request_for name) h ≡ (err e, h1)
      → resolve_nl_mcast_group k name group h ≡ (err e, h1)
  unfolding resolve_nl_mcast_group ◌>>=◌
  resolve_nl_mcast_group_unsent name group h h1 e unsent =
      rw (get_genl_family_unsent name h h1 e unsent) refl
