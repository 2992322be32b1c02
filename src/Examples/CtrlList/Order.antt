-- ===== src/Examples/CtrlList/Order.antt =====
-- examples/ctrl-list.rs on a dump of well-formed messages: the names and the identifiers are printed
-- in their order, up to the message that ends the dump.
use neli.Base.{ℕ, zero, suc, ◌<◌, ◌≡◌, refl, ◌∙◌, arith, Bool, true, false}
use neli.Base.{Option, none, some, List, [], ◌∷◌, ◌++◌, length, append_assoc, append-nil}
use neli.Outcome.{Result, ok, err, ◌>>=◌}
use neli.Err.{NlError}
use neli.Buffering.{Libc, Buffering, All}
use neli.Consts.{var}
use neli.Consts.Laws.{var_laws}
use neli.Consts.Messages.{Nlmsg, nlmsg}
use neli.Consts.Genl.{ctrl_cmd}
use neli.Consts.Attrs.{ctrl_attr}
use neli.Nlattr.Handle
use neli.Nlmsghdr.RoundTrip.{IsValid, bytes}
use neli.Genlmsghdr
use neli.Genlmsghdr.{genlmsghdr}
use neli.Genlmsghdr.RoundTrip.{genl_laws}
use neli.Kernel.{Kernel, received}
use neli.Socket.{Host}
use neli.Socket.Messages.{next, max_nl_length}
use neli.Socket.Messages.Receive.{Accepts}
use neli.Socket.Messages.Receive.Queue.{
  AcceptsAll, frames, queue, with_queue, dequeue, queue-cons, fetched,
}
use neli.Examples.{Session, Program}
use neli.Examples.CtrlList.{Line, Response, retrieving, answered, listen}
use neli.Examples.CtrlList.Lines.{StandAll, Describe, printing, print_attrs_lem}

-- The types that end the loop, and its result there.
abbrev pub is_last : Nlmsg → Bool
is_last Nlmsg.done = true
is_last Nlmsg.error = true
is_last other = false

abbrev pub ended : Nlmsg → Result NlError Unit
ended Nlmsg.error = err retrieving
ended other = ok tt

module _ ⦃c : Libc⦄ ⦃b : Buffering⦄ where
  abbrev pub IsResponse : Response → Type 0
  IsResponse m = IsValid (var_laws nlmsg) (genl_laws (var_laws ctrl_cmd) (var_laws ctrl_attr)) m

  abbrev pub datagram : List Response → List ℕ
  datagram ms = frames (var_laws nlmsg) (genl_laws (var_laws ctrl_cmd) (var_laws ctrl_attr)) ms

  abbrev wire : Response → List ℕ
  wire m = bytes (var_laws nlmsg) (genl_laws (var_laws ctrl_cmd) (var_laws ctrl_attr)) m

module _ ⦃c : Libc⦄ ⦃b : Buffering⦄ (k : Kernel) where
  -- How a run of the program ends: its result, and what it has printed.
  pub record Lists (q : Result NlError Unit × Session k Line) (result : Result NlError Unit)
      (printed : List Line) : Type 0 where
    pub same_result : q.0 ≡ result
    pub same_printed : q.1.printed ≡ printed

  answered-is_last :
      (rest : Program k Line Unit) (m : Response) (n : Nlmsg) (s : Session k Line)
      → is_last n ≡ true
      → Lists (answered k rest m n s) (ended n) s.printed
  answered-is_last rest m Nlmsg.done s last = record { same_result = refl; same_printed = refl }
  answered-is_last rest m Nlmsg.error s last = record { same_result = refl; same_printed = refl }
  answered-is_last rest m Nlmsg.noop s last = absurd (ground arith)
  answered-is_last rest m Nlmsg.overrun s last = absurd (ground arith)
  answered-is_last rest m (Nlmsg.unrecognized_variant i) s last = absurd (ground arith)

  answered-print :
      (rest : Program k Line Unit) (m : Response) (n : Nlmsg) (lines : List Line)
      (s : Session k Line)
      → is_last n ≡ false
      → StandAll m.nl_payload.attrs lines
      → answered k rest m n s ≡ rest (printing k lines s)
  unfolding ◌>>=◌ Handle.iter Genlmsghdr.get_attr_handle Handle.get_slice Handle.new_borrowed
  answered-print rest m Nlmsg.done lines s last v = absurd (ground arith)
  answered-print rest m Nlmsg.error lines s last v = absurd (ground arith)
  answered-print rest m Nlmsg.noop lines s last v =
      rw (print_attrs_lem k m.nl_payload.attrs lines s v) refl
  answered-print rest m Nlmsg.overrun lines s last v =
      rw (print_attrs_lem k m.nl_payload.attrs lines s v) refl
  answered-print rest m (Nlmsg.unrecognized_variant i) lines s last v =
      rw (print_attrs_lem k m.nl_payload.attrs lines s v) refl

  -- The messages that are left in the buffer.
  abbrev left : List ℕ → List Response → Option ℕ → Option b.ReadBuffer
  left front ms hint =
      queue k (var_laws nlmsg) (genl_laws (var_laws ctrl_cmd) (var_laws ctrl_attr)) front ms hint

  taken :
      (h : Host k) (front : List ℕ) (hint : Option ℕ) (m : Response) (ms : List Response)
      (after : Option ℕ)
      → h.socket.buffer ≡ left front (m ∷ ms) hint
      → IsResponse m
      → Accepts h.socket.pid m.nl_pid after
      → next k (var nlmsg) (genlmsghdr (var ctrl_cmd) (var ctrl_attr)) h
        ≡ (ok (some (ok m)), with_queue k h (left (front ++ wire m) ms none) after)
  unfolding next
  taken h front hint m ms after held v accepted =
      let tl = var_laws nlmsg in
      let pl = genl_laws (var_laws ctrl_cmd) (var_laws ctrl_attr) in
      rw
        (dequeue k tl pl none h front hint m ms after (held ∙ queue-cons k tl pl front m ms hint v)
          v accepted)
        refl

  -- The loop, on the messages left in the buffer.
  listen-queue :
      (fuel : ℕ) (s : Session k Line) (front : List ℕ) (hint : Option ℕ) (ms : List Response)
      (last : Response) (others : List Response) (after : Option ℕ) (lines : List Line)
      → length ms < fuel
      → s.host.socket.buffer ≡ left front (ms ++ (last ∷ others)) hint
      → All IsResponse ms
      → IsResponse last
      → AcceptsAll s.host.socket.pid (ms ++ (last ∷ [])) after
      → All (λ m. is_last m.nl_type ≡ false) ms
      → is_last last.nl_type ≡ true
      → Describe ms lines
      → Lists (listen k fuel s) (ended last.nl_type) (s.printed ++ lines)
  unfolding listen
  listen-queue zero s front hint ms last others after lines enough held v vl acc go end shown =
      absurd (omega arith)
  listen-queue (suc fuel) s front hint [] last others after lines enough held v vl
        (between, first, acc) go end shown =
      rw (shown, append-nil, taken s.host front hint last others between held vl first)
        (answered-is_last (listen k fuel) last last.nl_type _ end)
  listen-queue (suc fuel) s front hint (m ∷ ms) last others after lines enough held (v, vs) vl
        (between, first, acc) (go, gos) end (here, later, stands, shown, same) =
      let h' = with_queue k s.host (left (front ++ wire m) (ms ++ (last ∷ others)) none) between in
      let s' : Session k Line = record s { host = h' } in
      rw (same, taken s.host front hint m (ms ++ (last ∷ others)) between held v first)
        (rw (answered-print (listen k fuel) m m.nl_type here s' go stands) (
          rw (← append_assoc s.printed here later) (
            listen-queue fuel (printing k here s') (front ++ wire m) none ms last others after later
              (omega arith) refl vs vl acc gos end shown)))

  -- The first round fills the buffer.
  listen-filled :
      (fuel : ℕ) (s : Session k Line) (m : Response) (ms : List Response) (w : k.World)
      → s.host.socket.buffer ≡ none
      → IsResponse m
      → k.recv s.host.socket.fd max_nl_length 0 s.host.world ≡ (received (datagram (m ∷ ms)), w)
      → listen k (suc fuel) s
        ≡ listen k (suc fuel) (record s {
          host = record {
            socket = record s.host.socket { buffer = left [] (m ∷ ms) none };
            world = w;
          };
        })
  unfolding listen next
  listen-filled fuel s m ms w empty v answer =
      let tl = var_laws nlmsg in
      let pl = genl_laws (var_laws ctrl_cmd) (var_laws ctrl_attr) in
      rw (fetched k tl pl none s.host m ms w empty v answer, queue-cons k tl pl [] m ms none v) refl

  -- Where the kernel answers with one datagram of well-formed messages of processes that the socket
  -- takes, up to one of the type `Done` or `Error`: with fuel above the number of messages before it,
  -- the program prints the names and the identifiers that the attributes of these messages hold, in
  -- their order, and nothing of the last message. It returns `Ok` where that is of the type `Done`, and
  -- the error of the program where it is of the type `Error`, whatever follows in the datagram.
  pub listen-Lists :
      (fuel : ℕ) (s : Session k Line) (ms : List Response) (last : Response)
      (others : List Response) (w : k.World) (after : Option ℕ) (lines : List Line)
      → length ms < suc fuel
      → s.host.socket.buffer ≡ none
      → All IsResponse ms
      → IsResponse last
      → AcceptsAll s.host.socket.pid (ms ++ (last ∷ [])) after
      → All (λ m. is_last m.nl_type ≡ false) ms
      → is_last last.nl_type ≡ true
      → Describe ms lines
      → k.recv s.host.socket.fd max_nl_length 0 s.host.world
        ≡ (received (datagram (ms ++ (last ∷ others))), w)
      → Lists (listen k (suc fuel) s) (ended last.nl_type) (s.printed ++ lines)
  listen-Lists fuel s [] last others w after lines enough empty v vl acc go end shown answer =
      rw (listen-filled fuel s last others w empty vl answer) (
        listen-queue (suc fuel) _ [] none [] last others after lines enough refl v vl acc go end
          shown)
  listen-Lists fuel s (m ∷ ms) last others w after lines enough empty v vl acc go end shown answer =
      rw (listen-filled fuel s m (ms ++ (last ∷ others)) w empty v.0 answer) (
        listen-queue (suc fuel) _ [] none (m ∷ ms) last others after lines enough refl v vl acc go
          end shown)
