-- ===== src/Tests/Routes.antt =====
-- The theorems on examples/route-list.rs at concrete inputs.
use neli.Base.{ℕ, ◌<◌, ◌≡◌, refl, arith, false, inl, none, some, List, [], ◌∷◌, ◌++◌}
use neli.Outcome.{ok}
use neli.Nl.Laws.{uint_laws}
use neli.Consts.{first_arm, from_value}
use neli.Consts.Messages.{Nlmsg, nlmsg, nlm_f, multi}
use neli.Consts.Rtnl.Attrs.{Rta}
use neli.Flags.{flags_from}
use neli.Flags.Laws.{AreFlags}
use neli.Nl.{alignto}
use neli.Nlmsghdr.{Nlmsghdr}
use neli.Nlmsghdr.RoundTrip as Header
use neli.Rtnl.Rtattr
use neli.Rtnl.Rtattr.{Rtattr}
use neli.Rtnl.Route
use neli.Rtnl.Route.{Rtmsg}
use neli.Rtnl.Route.RoundTrip.{rtmsg_laws}
use neli.Socket.{NlSocket}
use neli.Examples.{Session}
use neli.Examples.RouteList.{Piece, v4, Addresses, to_addr, addresses, receive, listen}
use neli.Examples.RouteList.Loop as Routes
use neli.Examples.RouteList.Loop.{datagram}
use neli.Examples.RouteList.Order.{receive-Lists}
use neli.Examples.RouteList.Short.{Lists, listen_short}
use neli.Examples.RouteList.Lines.{PrintAll}
use neli.Examples.RouteList.Lookup.{
  IsLastAddress, payloads, is_dst, is_prefsrc, is_gateway, addresses-IsLastAddress,
}
use neli.Tests.Little.{little, linux}
use neli.Tests.Socket.{replay}
use neli.Tests.Routing.{route, route-IsValid}

abbrev pub fresh : NlSocket
fresh = record { fd = 3; buffer = none; pid = none; seq = some 0 }

-- A route of the main table, one of several, and the end of the dump.
pub multi_split : multi ∷ [] ≡ flags_from nlm_f 16 0 2
unfolding flags_from from_value first_arm
multi_split = refl

abbrev pub multi-AreFlags : AreFlags nlm_f 16 (multi ∷ [])
multi-AreFlags = record { word = 2; word_fits = omega arith; split = multi_split }

route_size : Route.size route ≡ 20
unfolding Route.size Rtattr.size_all Rtattr.size_items Rtattr.size alignto
route_size = refl

abbrev of_type : ℕ → Nlmsghdr ℕ Rtmsg
of_type nl_type = record {
  nl_len = 36;
  nl_type = nl_type;
  nl_flags = multi ∷ [];
  nl_seq = 0;
  nl_pid = 7;
  nl_payload = route;
}

of_type-IsRoute : (nl_type : ℕ) → nl_type < 100 → Routes.IsRoute (of_type nl_type)
of_type-IsRoute nl_type small = record {
  len_is_size =
      omega (arith, Header.size_lem (uint_laws 2) rtmsg_laws (of_type nl_type), route_size);
  len_fits = omega arith;
  type_IsValid = omega arith;
  flags_AreFlags = multi-AreFlags;
  seq_fits = omega arith;
  pid_fits = omega arith;
  payload_IsValid = route-IsValid;
}

new_route : Routes.is_last (from_value nlmsg 24) ≡ false
unfolding from_value first_arm
new_route = refl

pub done_type : from_value nlmsg 3 ≡ Nlmsg.done
unfolding from_value first_arm
done_type = refl

-- The end of a dump as the kernel sends it: 20 bytes, of which the last four are a number.
abbrev done_bytes : List ℕ
done_bytes = 20 ∷ 0 ∷ 0 ∷ 0 ∷ 3 ∷ 0 ∷ 2 ∷ 0 ∷ 0 ∷ 0 ∷ 0 ∷ 0 ∷ 7 ∷ 0 ∷ 0 ∷ 0 ∷ 0 ∷ 0 ∷ 0 ∷ 0 ∷ []

abbrev routes : List (Nlmsghdr ℕ Rtmsg)
routes = of_type 24 ∷ of_type 24 ∷ []

abbrev dump : Session replay Piece
dump = record {
  host = record { socket = fresh; world = (datagram routes ++ done_bytes) ∷ [] };
  printed = [];
}

done_bytes_end : Routes.Ending none done_bytes (ok tt)
done_bytes_end = inl (record {
  not_empty = omega arith;
  short = omega arith;
  AreBytes = omega arith;
  result_is_ok = refl;
})

receive-Lists_example :
    (printed : List Piece) × PrintAll routes printed
    × Lists replay (receive replay 2 dump) (ok tt) ([] ++ printed)
receive-Lists_example =
    receive-Lists replay 2 dump (of_type 24) (of_type 24 ∷ []) done_bytes [] none (ok tt)
      (omega arith) refl (of_type-IsRoute 24 (omega arith), (of_type-IsRoute 24 (omega arith), tt))
      (none, refl, (none, refl, refl)) (inl refl) (new_route, tt) done_bytes_end refl

abbrev end_of_dump : Session replay Piece
end_of_dump = record {
  host = record {
    socket = record fresh { buffer = some (little.reader [] done_bytes none) };
    world = [];
  };
  printed = [];
}

listen_short_example : Lists replay (listen replay 1 end_of_dump) (ok tt) []
listen_short_example =
    listen_short replay 0 end_of_dump [] done_bytes none refl (omega arith) (omega arith)

-- The last destination counts.
abbrev two_destinations : List (Rtattr Rta (List ℕ))
two_destinations =
    record { rta_len = 8; rta_type = Rta.dst; rta_payload = 10 ∷ 0 ∷ 0 ∷ 0 ∷ [] }
    ∷ record { rta_len = 8; rta_type = Rta.dst; rta_payload = 10 ∷ 0 ∷ 0 ∷ 1 ∷ [] }
    ∷ []

abbrev found : Addresses
found = addresses (record { src = none; dst = none; gateway = none }) two_destinations

last_destination : found.dst ≡ some (v4 (10 ∷ 0 ∷ 0 ∷ 1 ∷ []))
unfolding to_addr addresses
last_destination = refl

addresses-IsLastAddress_example :
    IsLastAddress (payloads is_dst two_destinations) found.dst
    × IsLastAddress (payloads is_prefsrc two_destinations) found.src
    × IsLastAddress (payloads is_gateway two_destinations) found.gateway
addresses-IsLastAddress_example = addresses-IsLastAddress two_destinations
