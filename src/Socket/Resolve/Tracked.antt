-- ===== src/Socket/Resolve/Tracked.antt =====
-- src/socket.rs: `resolve_genl_family` and `resolve_nl_mcast_group` on a socket that counts its
-- messages, as the examples make it.
use neli.Base.{ℕ, ◌+◌, ◌^◌, ◌<◌, ◌≡◌, refl, Option, none, some, List}
use neli.Outcome.{Exec, err, ◌>>=◌}
use neli.Err.{bad_seq}
use neli.Buffering.{Libc, Buffering}
use neli.Nl.Padding.{IsSmall}
use neli.Consts.{var}
use neli.Consts.Laws.{var_laws}
use neli.Consts.Messages.{genl_id}
use neli.Nlmsghdr
use neli.Kernel.{Kernel, pos}
use neli.Socket.{Host}
use neli.Socket.Messages.Send.{IsBelowMax, send_nl_lem, after_send}
use neli.Socket.Messages.Receive.Queue.{with_queue, recv_nl_one}
use neli.Socket.Messages.Ack.{recv_ack_fetched}
use neli.Socket.Messages.Exchange.{next_differs}
use neli.Socket.Resolve.{
  Family, family, get_genl_family, resolve_genl_family, resolve_nl_mcast_group,
}
use neli.Socket.Resolve.Laws.{families, request_for, family_request_lem, Answers}

module _ {S E A B : Type 0} where
  -- What follows a call that ends in an error.
  stops_at :
      (m : Exec S E A) (f : A → Exec S E B) (s : S) (e : E)
      → (m s).0 ≡ err e
      → ((m >>= f) s).0 ≡ err e
  unfolding ◌>>=◌
  stops_at m f s e failed = rw failed refl

module _ ⦃c : Libc⦄ ⦃b : Buffering⦄ (k : Kernel) where
  tracked :
      (h : Host k) (name : List ℕ) (reply : Family) (s : ℕ) (after : Option ℕ) (w : k.World)
      → h.socket.seq ≡ some s
      → h.socket.buffer ≡ none
      → s + 1 < 2 ^ 32
      → families.IsValid (request_for name).nl_payload
      → IsSmall (Nlmsghdr.size (var genl_id) family (request_for name))
      → (kernel : Answers k h name reply after w) → kernel.acked.nl_seq ≡ s
      → (get_genl_family k name h).0 ≡ err bad_seq
  unfolding get_genl_family ◌>>=◌
  tracked h name reply s after w seq empty below v small kernel same =
      let req = request_for name in
      let below_max : IsBelowMax h.socket.seq = rw seq below in
      let sent_off =
        send_nl_lem (var_laws genl_id) families k h req (pos kernel.taken) kernel.asked v small
          below_max kernel.sends in
      let h1 = after_send k h kernel.asked in
      let read =
        recv_nl_one k (var_laws genl_id) families none h1 reply kernel.told kernel.between empty
          kernel.reply_IsValid kernel.reply_accepted kernel.replies in
      let h2 = with_queue k (record h1 { world = kernel.told }) none kernel.between in
      let acknowledged =
        recv_ack_fetched k h2 kernel.acked w after refl kernel.acked_IsAnswer kernel.acked_accepted
          kernel.acked_IsAck kernel.acks in
      rw (family_request_lem name, sent_off, read, acknowledged)
        (rw (seq, same, next_differs k s) refl)

  -- A socket that counts its messages and has no buffer asks for a family, and the kernel answers with
  -- the family and with an ack, in which the header of the request may stand and which has the number `s`
  -- of the request as its own: both
  -- `resolve_genl_family` and `resolve_nl_mcast_group` are `BadSeq`, whatever the group. The request is
  -- valid and no longer than lengths can be.
  pub resolve_tracked :
      (h : Host k) (name group : List ℕ) (reply : Family) (s : ℕ) (after : Option ℕ) (w : k.World)
      → h.socket.seq ≡ some s
      → h.socket.buffer ≡ none
      → s + 1 < 2 ^ 32
      → families.IsValid (request_for name).nl_payload
      → IsSmall (Nlmsghdr.size (var genl_id) family (request_for name))
      → (kernel : Answers k h name reply after w) → kernel.acked.nl_seq ≡ s
      → ((resolve_genl_family k name h).0 ≡ err bad_seq)
        × ((resolve_nl_mcast_group k name group h).0 ≡ err bad_seq)
  unfolding resolve_genl_family resolve_nl_mcast_group
  resolve_tracked h name group reply s after w seq empty below v small kernel same =
      let failed = tracked h name reply s after w seq empty below v small kernel same in
      (
        stops_at (get_genl_family k name) _ h bad_seq failed,
        stops_at (get_genl_family k name) _ h bad_seq failed,
      )
