-- ===== src/Examples/RouteList/Loop.antt =====
-- examples/route-list.rs: the loop on the messages that are left in the buffer, up to the end of the
-- dump.
use neli.Base.{ℕ, zero, suc, ◌≤◌, ◌<◌, ◌≡◌, refl, ◌∙◌, ap, arith, Bool, true, false}
use neli.Base.{
  Option, none, some, List, [], ◌∷◌, ◌++◌, length, append_assoc, append-nil, length-append, ◌⊎◌,
  inl, inr, subst,
}
use neli.Outcome.{Result, ok, err, ◌>>=◌}
use neli.Err.{NlError, msg}
use neli.Buffering.{Libc, Buffering, All, IsByte}
use neli.Nl.Uint.{u16}
use neli.Nl.Laws.{uint_laws}
use neli.Consts.{from_value}
use neli.Consts.Messages.{Nlmsg, nlmsg}
use neli.Nlmsghdr.{Nlmsghdr}
use neli.Nlmsghdr.RoundTrip.{IsValid, bytes, deserialize-Reads}
use neli.Rtnl.Route.{Rtmsg, rtmsg}
use neli.Rtnl.Route.RoundTrip.{rtmsg_laws}
use neli.Kernel.{Kernel}
use neli.Socket.{Host}
use neli.Socket.Messages.{recv_nl, drained}
use neli.Socket.Messages.Receive.{Accepts}
use neli.Socket.Messages.Receive.Queue.{
  AcceptsAll, frames, with_queue, dequeue_read, length-bytes_pos,
}
use neli.Examples.{Session, Program}
use neli.Examples.RouteList.{Piece, parse_route_table, as_rtm, sorted, listen}
use neli.Examples.RouteList.Short.{Lists, listen_short}

-- The types that end the loop, and its result there.
abbrev pub is_last : Nlmsg → Bool
is_last Nlmsg.done = true
is_last Nlmsg.error = true
is_last other = false

abbrev pub ended : Nlmsg → Result NlError Unit
ended Nlmsg.error = err (msg "rtnetlink error.")
ended other = ok tt

module _ ⦃c : Libc⦄ where
  abbrev pub kind : Nlmsghdr ℕ Rtmsg → Nlmsg
  kind m = from_value nlmsg m.nl_type

  abbrev pub lines : List (Nlmsghdr ℕ Rtmsg) → List Piece
  lines [] = []
  lines (m ∷ ms) = parse_route_table (as_rtm m) ++ lines ms

module _ ⦃c : Libc⦄ ⦃b : Buffering⦄ where
  -- A well-formed message of any type, and the bytes of a datagram of these.
  abbrev pub IsRoute : Nlmsghdr ℕ Rtmsg → Type 0
  IsRoute m = IsValid (uint_laws 2) rtmsg_laws m

  abbrev pub route_bytes : Nlmsghdr ℕ Rtmsg → List ℕ
  route_bytes m = bytes (uint_laws 2) rtmsg_laws m

  abbrev pub datagram : List (Nlmsghdr ℕ Rtmsg) → List ℕ
  datagram ms = frames (uint_laws 2) rtmsg_laws ms

  -- The end of a dump in bytes too few for a route message, as the kernel sends it.
  pub record ShortEnd (tail : List ℕ) (result : Result NlError Unit) : Type 0 where
    pub not_empty : 1 ≤ length tail
    pub short : length tail < 28
    pub AreBytes : All IsByte tail
    pub result_is_ok : result ≡ ok tt

  -- The end of a dump in a well-formed message of the type `Done` or `Error`.
  pub record LastMessage (pid : Option ℕ) (tail : List ℕ) (result : Result NlError Unit)
      : Type 0 where
    pub last : Nlmsghdr ℕ Rtmsg
    pub others : List ℕ
    pub after : Option ℕ
    pub holds : tail ≡ route_bytes last ++ others
    pub last_IsRoute : IsRoute last
    pub last_is_last : is_last (kind last) ≡ true
    pub accepted : Accepts pid last.nl_pid after
    pub result_is_ended : result ≡ ended (kind last)

  abbrev pub Ending : Option ℕ → List ℕ → Result NlError Unit → Type 0
  Ending pid tail result = ShortEnd tail result ⊎ LastMessage pid tail result

module _ ⦃c : Libc⦄ ⦃b : Buffering⦄ (k : Kernel) where
  sorted-is_last :
      (rest : Program k Piece Unit) (m : Nlmsghdr ℕ Rtmsg) (n : Nlmsg) (s : Session k Piece)
      → is_last n ≡ true
      → Lists k (sorted k rest m n s) (ended n) s.printed
  sorted-is_last rest m Nlmsg.done s last = record { same_result = refl; same_printed = refl }
  sorted-is_last rest m Nlmsg.error s last = record { same_result = refl; same_printed = refl }
  sorted-is_last rest m Nlmsg.noop s last = absurd (ground arith)
  sorted-is_last rest m Nlmsg.overrun s last = absurd (ground arith)
  sorted-is_last rest m (Nlmsg.unrecognized_variant i) s last = absurd (ground arith)

  abbrev shown : Nlmsghdr ℕ Rtmsg → Session k Piece → Session k Piece
  shown m s = record s { printed = s.printed ++ parse_route_table (as_rtm m) }

  sorted-shown :
      (rest : Program k Piece Unit) (m : Nlmsghdr ℕ Rtmsg) (n : Nlmsg) (s : Session k Piece)
      → is_last n ≡ false
      → sorted k rest m n s ≡ rest (shown m s)
  unfolding ◌>>=◌
  sorted-shown rest m Nlmsg.done s last = absurd (ground arith)
  sorted-shown rest m Nlmsg.error s last = absurd (ground arith)
  sorted-shown rest m Nlmsg.noop s last = refl
  sorted-shown rest m Nlmsg.overrun s last = refl
  sorted-shown rest m (Nlmsg.unrecognized_variant i) s last = refl

  -- Those bytes are left in the buffer.
  abbrev pub left : List ℕ → List ℕ → Option ℕ → Option b.ReadBuffer
  left front rest hint = drained k (some (b.reader front rest hint))

  left_some :
      (front rest : List ℕ) (hint : Option ℕ)
      → 1 ≤ length rest
      → left front rest hint ≡ some (b.reader front rest hint)
  left_some front [] hint long = absurd (omega arith)
  left_some front (x ∷ rest) hint long = rw (b.at_end_cons front rest x hint)

  pub taken :
      (h : Host k) (front rest : List ℕ) (hint : Option ℕ) (m : Nlmsghdr ℕ Rtmsg) (after : Option ℕ)
      → h.socket.buffer ≡ left front (route_bytes m ++ rest) hint
      → IsRoute m
      → Accepts h.socket.pid m.nl_pid after
      → recv_nl k u16 rtmsg none h
        ≡ (ok m, with_queue k h (left (front ++ route_bytes m) rest none) after)
  taken h front rest hint m after held v accepted =
      let long : 1 ≤ length (route_bytes m ++ rest) = omega (
        arith,
        length-append (route_bytes m) rest,
        length-bytes_pos k (uint_laws 2) rtmsg_laws m v,
      ) in
      dequeue_read k u16 rtmsg none h front (route_bytes m) rest hint none m after
        (held ∙ left_some front (route_bytes m ++ rest) hint long)
        (deserialize-Reads (uint_laws 2) rtmsg_laws m hint v) accepted

  Ending-Lists :
      (fuel : ℕ) (s : Session k Piece) (front tail : List ℕ) (hint : Option ℕ)
      (result : Result NlError Unit)
      → s.host.socket.buffer ≡ left front tail hint
      → Ending s.host.socket.pid tail result
      → Lists k (listen k (suc fuel) s) result s.printed
  unfolding listen
  Ending-Lists fuel s front tail hint result held (inl e) = rw (e.result_is_ok) (
      listen_short k fuel s front tail hint (held ∙ left_some front tail hint e.not_empty) e.short
        e.AreBytes)
  Ending-Lists fuel s front tail hint result held (inr e) =
      let held_last : s.host.socket.buffer ≡ left front (route_bytes e.last ++ e.others) hint =
        held ∙ ap (λ xs. left front xs hint) e.holds in
      rw (taken s.host front e.others hint e.last e.after held_last e.last_IsRoute e.accepted) (
        rw (e.result_is_ended)
          (sorted-is_last (listen k fuel) e.last (kind e.last) _ e.last_is_last))

  -- The loop, on the messages left in the buffer.
  pub listen-Lists :
      (fuel : ℕ) (s : Session k Piece) (front : List ℕ) (hint : Option ℕ)
      (ms : List (Nlmsghdr ℕ Rtmsg)) (tail : List ℕ) (after : Option ℕ)
      (result : Result NlError Unit)
      → length ms < fuel
      → s.host.socket.buffer ≡ left front (datagram ms ++ tail) hint
      → All IsRoute ms
      → AcceptsAll s.host.socket.pid ms after
      → All (λ m. is_last (kind m) ≡ false) ms
      → Ending after tail result
      → Lists k (listen k fuel s) result (s.printed ++ lines ms)
  unfolding listen
  listen-Lists zero s front hint ms tail after result enough held v acc go end =
      absurd (omega arith)
  listen-Lists (suc fuel) s front hint [] tail after result enough held v acc go end =
      rw append-nil (
        Ending-Lists fuel s front tail hint result held
          (subst (λ pid. Ending pid tail result) acc end))
  listen-Lists (suc fuel) s front hint (m ∷ ms) tail after result enough held (v, vs)
        (between, first, acc) (go, gos) end =
      let rest = datagram ms ++ tail in
      let held_m : s.host.socket.buffer ≡ left front (route_bytes m ++ rest) hint =
        held ∙ ap (λ xs. left front xs hint) (append_assoc (route_bytes m) (datagram ms) tail) in
      let h' = with_queue k s.host (left (front ++ route_bytes m) rest none) between in
      let s' : Session k Piece = record s { host = h' } in
      rw (taken s.host front rest hint m between held_m v first) (
        rw (sorted-shown (listen k fuel) m (kind m) s' go) (
          rw (← append_assoc s.printed (parse_route_table (as_rtm m)) (lines ms)) (
            listen-Lists fuel (shown m s') (front ++ route_bytes m) none ms tail after result
              (omega arith) refl vs acc gos end)))
