-- ===== src/Examples/RouteList/Order.antt =====
-- examples/route-list.rs on a dump of well-formed messages: the routes are printed in their order, up
-- to the end of the dump.
use neli.Base.{ℕ, ◌≤◌, ◌<◌, ◌≡◌, refl, ◌∙◌, ap, arith, true, false}
use neli.Base.{
  Option, none, some, List, [], ◌∷◌, ◌++◌, length, append_assoc, length-append, ◌⊎◌, inl, inr,
}
use neli.Outcome.{Result, ok, ◌>>=◌}
use neli.Err.{NlError}
use neli.Buffering.{Libc, Buffering, All}
use neli.Nl.Laws.{uint_laws}
use neli.Consts.{var}
use neli.Consts.Laws.{var_laws, into-from_value, from_value-IsEncodable}
use neli.Consts.Messages.{NlmF, multi}
use neli.Consts.Rtm.{rtm}
use neli.Nlmsghdr
use neli.Nlmsghdr.{Nlmsghdr}
use neli.Nlmsghdr.RoundTrip.{IsValid, bytes, deserialize-Reads}
use neli.Rtnl.Route.{Rtmsg, rtmsg}
use neli.Rtnl.Route.RoundTrip.{rtmsg_laws}
use neli.Kernel.{Kernel, received}
use neli.Socket.{Host}
use neli.Socket.Messages.{recv_nl, max_nl_length}
use neli.Socket.Messages.Receive.{Accepts}
use neli.Socket.Messages.Receive.Queue.{
  AcceptsAll, with_queue, dequeue_read, fetched_bytes, length-bytes_pos,
}
use neli.Examples.{Session}
use neli.Examples.RouteList.{Piece, parse_route_table, as_rtm, receive, is_multi}
use neli.Examples.RouteList.Lines.{PrintAll, parse_route_table-Prints}
use neli.Examples.RouteList.Short.{Lists}
use neli.Examples.RouteList.Loop.{
  is_last, kind, lines, IsRoute, route_bytes, datagram, Ending, left, listen-Lists,
}

-- One of the flags is `Multi`.
abbrev pub HasMulti : List NlmF → Type 0
HasMulti [] = ⊥
HasMulti (flag ∷ flags) = (flag ≡ multi) ⊎ HasMulti flags

is_multi-cons :
    (flag : NlmF) (flags : List NlmF) → is_multi flags ≡ true → is_multi (flag ∷ flags) ≡ true
is_multi-cons multi flags later = refl
is_multi-cons flag flags later = later

is_multi_lem : (flags : List NlmF) → HasMulti flags → is_multi flags ≡ true
is_multi_lem [] has = absurd has
is_multi_lem (flag ∷ flags) (inl same) = rw same refl
is_multi_lem (flag ∷ flags) (inr later) = is_multi-cons flag flags (is_multi_lem flags later)

module _ ⦃c : Libc⦄ ⦃b : Buffering⦄ (k : Kernel) where
  -- The first message is read with its type converted.
  bytes-as_rtm :
      (m : Nlmsghdr ℕ Rtmsg)
      → bytes (var_laws rtm) rtmsg_laws (as_rtm m) ≡ bytes (uint_laws 2) rtmsg_laws m
  unfolding bytes Nlmsghdr.size
  bytes-as_rtm m = rw (into-from_value rtm (λ _. refl) m.nl_type)

  as_rtm-IsValid : (m : Nlmsghdr ℕ Rtmsg) → IsRoute m → IsValid (var_laws rtm) rtmsg_laws (as_rtm m)
  unfolding Nlmsghdr.size
  as_rtm-IsValid m v = record {
    len_is_size = v.len_is_size;
    len_fits = v.len_fits;
    type_IsValid = from_value-IsEncodable rtm (λ _. refl) m.nl_type v.type_IsValid;
    flags_AreFlags = v.flags_AreFlags;
    seq_fits = v.seq_fits;
    pid_fits = v.pid_fits;
    payload_IsValid = v.payload_IsValid;
  }

  first_taken :
      (h : Host k) (m : Nlmsghdr ℕ Rtmsg) (rest : List ℕ) (w : k.World) (after : Option ℕ)
      → h.socket.buffer ≡ none
      → IsRoute m
      → Accepts h.socket.pid m.nl_pid after
      → k.recv h.socket.fd max_nl_length 0 h.world ≡ (received (route_bytes m ++ rest), w)
      → recv_nl k (var rtm) rtmsg none h ≡ (
        ok (as_rtm m),
        with_queue k (record h { world = w }) (left k (route_bytes m) rest none) after,
      )
  first_taken h m rest w after empty v accepted answer =
      let xs = route_bytes m ++ rest in
      let filled : Host k = record {
        socket = record h.socket { buffer = some (b.reader [] xs none) };
        world = w;
      } in
      let long : 1 ≤ length xs = omega (
        arith,
        length-append (route_bytes m) rest,
        length-bytes_pos k (uint_laws 2) rtmsg_laws m v,
      ) in
      let reads =
        deserialize-Reads (var_laws rtm) rtmsg_laws (as_rtm m) none (as_rtm-IsValid m v) in
      fetched_bytes k (var rtm) rtmsg none h xs w empty long answer
      ∙ dequeue_read k (var rtm) rtmsg none filled [] (route_bytes m) rest none none (as_rtm m)
          after refl (rw (bytes-as_rtm m) at reads) accepted

  receive-lines :
      (fuel : ℕ) (s : Session k Piece) (m : Nlmsghdr ℕ Rtmsg) (ms : List (Nlmsghdr ℕ Rtmsg))
      (tail : List ℕ) (w : k.World) (after : Option ℕ) (result : Result NlError Unit)
      → length ms < fuel
      → s.host.socket.buffer ≡ none
      → All IsRoute (m ∷ ms)
      → AcceptsAll s.host.socket.pid (m ∷ ms) after
      → HasMulti m.nl_flags
      → All (λ m. is_last (kind m) ≡ false) ms
      → Ending after tail result
      → k.recv s.host.socket.fd max_nl_length 0 s.host.world
        ≡ (received (datagram (m ∷ ms) ++ tail), w)
      → Lists k (receive k fuel s) result (s.printed ++ lines (m ∷ ms))
  unfolding receive ◌>>=◌
  receive-lines fuel s m ms tail w after result enough empty (v, vs) (between, first, acc) flagged
        go end answer =
      let rest = datagram ms ++ tail in
      let h' =
        with_queue k (record s.host { world = w }) (left k (route_bytes m) rest none) between in
      let given : k.recv s.host.socket.fd max_nl_length 0 s.host.world
          ≡ (received (route_bytes m ++ rest), w) =
        answer ∙ ap (λ xs. (received xs, w)) (append_assoc (route_bytes m) (datagram ms) tail) in
      rw (first_taken s.host m rest w between empty v first given) (
        rw
          (
            is_multi_lem m.nl_flags flagged,
            ← append_assoc s.printed (parse_route_table (as_rtm m)) (lines ms),
          )
          (listen-Lists k fuel
            (record { host = h'; printed = s.printed ++ parse_route_table (as_rtm m) })
            (route_bytes m) none ms tail after result enough refl vs acc go end))

  lines-PrintAll : (ms : List (Nlmsghdr ℕ Rtmsg)) → PrintAll ms (lines ms)
  lines-PrintAll [] = refl
  lines-PrintAll (m ∷ ms) =
      (parse_route_table (as_rtm m), lines ms, refl, parse_route_table-Prints m, lines-PrintAll ms)

  -- After the request, where the kernel answers with one datagram of well-formed messages of processes
  -- that the socket takes, the first of them flagged as one of several and the others not of the types
  -- `Done` and `Error`, and then either fewer than 28 bytes, as the end of a dump of the kernel is, or a
  -- well-formed message of the type `Done` or `Error` and whatever follows: with fuel above the number of
  -- the messages after the first, the program prints what belongs to each of them, in their order, and
  -- nothing else. That is nothing for a route that is not of the main table, and else its line: the
  -- destination in the last `Dst` attribute with the length of its prefix, or, with no destination,
  -- "default" and the gateway in the last `Gateway` attribute, if any; then the protocol and the scope
  -- where this is not the universe; then the source in the last `Prefsrc` attribute, if any. The
  -- program returns its error where the last message is a well-formed one of the type `Error`, and else
  -- `Ok`.
  pub receive-Lists :
      (fuel : ℕ) (s : Session k Piece) (m : Nlmsghdr ℕ Rtmsg) (ms : List (Nlmsghdr ℕ Rtmsg))
      (tail : List ℕ) (w : k.World) (after : Option ℕ) (result : Result NlError Unit)
      → length ms < fuel
      → s.host.socket.buffer ≡ none
      → All IsRoute (m ∷ ms)
      → AcceptsAll s.host.socket.pid (m ∷ ms) after
      → HasMulti m.nl_flags
      → All (λ m. is_last (kind m) ≡ false) ms
      → Ending after tail result
      → k.recv s.host.socket.fd max_nl_length 0 s.host.world
        ≡ (received (datagram (m ∷ ms) ++ tail), w)
      → (printed : List Piece) × PrintAll (m ∷ ms) printed
        × Lists k (receive k fuel s) result (s.printed ++ printed)
  receive-Lists fuel s m ms tail w after result enough empty v acc flagged go end answer = (
    lines (m ∷ ms),
    lines-PrintAll (m ∷ ms),
    receive-lines fuel s m ms tail w after result enough empty v acc flagged go end answer,
  )
