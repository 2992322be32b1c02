-- ===== src/Socket/Resolve/Laws.antt =====
-- src/socket.rs: `resolve_genl_family` where the kernel answers the request.
use neli.Base.{ℕ, ◌+◌, ◌%◌, ◌^◌, ◌<◌, ◌≡◌, refl}
use neli.Base.{Option, none, some, List, [], ◌∷◌, ◌++◌, length}
use neli.Outcome.{ok, ◌>>=◌}
use neli.Buffering.{Libc, Buffering}
use neli.Nl.Padding.{IsSmall}
use neli.Nl.Laws.{Payload, uint_laws, payload_of_fixed}
use neli.Nl.Text.{str}
use neli.Nl.Text.Laws.{Writes-str}
use neli.Consts.{var}
use neli.Consts.Laws.{var_laws}
use neli.Consts.Attrs.{CtrlAttr, ctrl_attr}
use neli.Consts.Genl.{ctrl_cmd, getfamily}
use neli.Consts.Messages.{genl_id, ctrl, request, ack}
use neli.Nlattr.Build.Laws.{new-Writes, made, get_payload_as-made}
use neli.Nlattr.Handle
use neli.Nlattr.Handle.{get_attribute, get_attr_payload_as}
use neli.Nlmsghdr
use neli.Nlmsghdr.{Nlmsghdr}
use neli.Nlmsghdr.RoundTrip.{IsValid, bytes}
use neli.Genlmsghdr
use neli.Genlmsghdr.{Genlmsghdr}
use neli.Genlmsghdr.RoundTrip.{genl_laws}
use neli.Kernel.{Kernel, pos, received}
use neli.Socket.{Host}
use neli.Socket.Messages.{max_nl_length, with_seq}
use neli.Socket.Messages.Send.{IsBelowMax, send_nl_lem, after_send}
use neli.Socket.Messages.Receive.{Accepts}
use neli.Socket.Messages.Receive.Queue.{frames, with_queue, recv_nl_one}
use neli.Socket.Messages.Answer.{Answer, IsAnswer, IsAck, wire}
use neli.Socket.Messages.Ack.{recv_ack_fetched}
use neli.Socket.Resolve.{
  Family, family, family_request, get_genl_family, resolve_genl_family, eq_attr,
}

module _ ⦃c : Libc⦄ ⦃b : Buffering⦄ where
  abbrev pub families : Payload family
  families = genl_laws (var_laws ctrl_cmd) (var_laws ctrl_attr)

  -- The request with the name as its one attribute.
  abbrev pub request_for : List ℕ → Family
  request_for name =
      Nlmsghdr.new (var genl_id) family none ctrl (request ∷ ack ∷ []) none none (record {
        cmd = getfamily;
        version = 2;
        reserved = 0;
        attrs =
            record {
              nla_len = (2 + 2 + (length name + 1)) % 2 ^ 16;
              nla_type = CtrlAttr.family_name;
              payload = name ++ (0 ∷ []);
            }
            ∷ [];
      })

  pub family_request_lem : (name : List ℕ) → family_request name ≡ ok (request_for name)
  unfolding family_request Genlmsghdr.new
  family_request_lem name =
      rw
        (new-Writes (var ctrl_attr) str none CtrlAttr.family_name name (name ++ (0 ∷ []))
          (Writes-str name))
        refl

module _ ⦃c : Libc⦄ ⦃b : Buffering⦄ (k : Kernel) where
  -- What the kernel does with a request: it takes it, gives the family in one datagram and an ack in
  -- the next, both of a process that the socket takes. The family is well formed; the header in the ack
  -- may be that of the request, its length included.
  pub record Answers (h : Host k) (name : List ℕ) (reply : Family) (after : Option ℕ) (w : k.World)
      : Type 0 where
    pub taken : ℕ
    pub asked : k.World
    pub told : k.World
    pub between : Option ℕ
    pub acked : Answer
    pub sends :
        k.send h.socket.fd
          (bytes (var_laws genl_id) families (with_seq h.socket.seq (request_for name)))
          0
          h.world
        ≡ (pos taken, asked)
    pub replies :
        k.recv h.socket.fd max_nl_length 0 asked
        ≡ (received (frames (var_laws genl_id) families (reply ∷ [])), told)
    pub acks : k.recv h.socket.fd max_nl_length 0 told ≡ (received (wire acked), w)
    pub reply_IsValid : IsValid (var_laws genl_id) families reply
    pub reply_accepted : Accepts h.socket.pid reply.nl_pid between
    pub acked_IsAnswer : IsAnswer acked
    pub acked_accepted : Accepts between acked.nl_pid after
    pub acked_IsAck : IsAck acked

  pub get_genl_family_lem :
      (h : Host k) (name : List ℕ) (reply : Family) (after : Option ℕ) (w : k.World)
      → h.socket.seq ≡ none
      → h.socket.buffer ≡ none
      → families.IsValid (request_for name).nl_payload
      → IsSmall (Nlmsghdr.size (var genl_id) family (request_for name))
      → Answers h name reply after w
      → get_genl_family k name h ≡ (ok reply, with_queue k (record h { world = w }) none after)
  unfolding get_genl_family ◌>>=◌
  get_genl_family_lem h name reply after w untracked empty v small kernel =
      let req = request_for name in
      let none_kept : IsBelowMax h.socket.seq = rw untracked tt in
      let sent_off =
        send_nl_lem (var_laws genl_id) families k h req (pos kernel.taken) kernel.asked v small
          none_kept kernel.sends in
      let h1 = after_send k h kernel.asked in
      let read =
        recv_nl_one k (var_laws genl_id) families none h1 reply kernel.told kernel.between empty
          kernel.reply_IsValid kernel.reply_accepted kernel.replies in
      let h2 = with_queue k (record h1 { world = kernel.told }) none kernel.between in
      let acknowledged =
        recv_ack_fetched k h2 kernel.acked w after refl kernel.acked_IsAnswer kernel.acked_accepted
          kernel.acked_IsAck kernel.acks in
      rw (family_request_lem name, sent_off, read, acknowledged) (rw untracked refl)

  -- A socket that does not count its messages and has no buffer asks for a family, and the kernel
  -- answers: with the family, in which the first attribute of the type FamilyId is the one that `new` makes
  -- of the number `id`, and with an ack, in which the header of the request may stand. Then `resolve_genl_family` is `id`. The socket is left with
  -- no buffer, and its process is as the two messages leave it. The request is valid and no longer
  -- than lengths can be.
  pub resolve_genl_family_lem :
      (h : Host k) (name : List ℕ) (reply : Family) (id : ℕ) (after : Option ℕ) (w : k.World)
      → h.socket.seq ≡ none
      → h.socket.buffer ≡ none
      → families.IsValid (request_for name).nl_payload
      → IsSmall (Nlmsghdr.size (var genl_id) family (request_for name))
      → Answers h name reply after w
      → id < 2 ^ 16
      → get_attribute eq_attr (Genlmsghdr.get_attr_handle reply.nl_payload) CtrlAttr.family_id
        ≡ some (made (var_laws ctrl_attr) (payload_of_fixed (uint_laws 2)) CtrlAttr.family_id id)
      → resolve_genl_family k name h ≡ (ok id, with_queue k (record h { world = w }) none after)
  unfolding resolve_genl_family ◌>>=◌ get_attr_payload_as Genlmsghdr.get_attr_handle
      Handle.new_borrowed
  resolve_genl_family_lem h name reply id after w untracked empty v small kernel fits found =
      rw (get_genl_family_lem h name reply after w untracked empty v small kernel) (
        rw found (
          rw
            (get_payload_as-made (var_laws ctrl_attr) (payload_of_fixed (uint_laws 2))
              CtrlAttr.family_id id fits)
            refl))
