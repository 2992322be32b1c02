-- ===== src/Examples/RouteList/Lines.antt =====
-- examples/route-list.rs: what is printed of a route, by its fields and its attributes.
use neli.Base.{ℕ, ◌≡◌, ◌≢◌, refl, arith, true, inl, inr, Bool-cases}
use neli.Base.{Option, none, some, List, [], ◌∷◌, ◌++◌}
use neli.Buffering.{Libc}
use neli.Consts.Rtnl.Routes.{Rtprot, RtScope, RtTable}
use neli.Nlmsghdr.{Nlmsghdr}
use neli.Rtnl.Rtattr
use neli.Rtnl.Route.{Rtmsg}
use neli.Examples.RouteList.{
  IpAddr, Piece, prefix, default, via, proto_scope, source, newline, Addresses, addresses, is_main,
  is_universe, scoped, from_source, destination, route_line, parse_route_table, as_rtm,
}
use neli.Examples.RouteList.Lookup.{
  IsLastAddress, payloads, is_dst, is_prefsrc, is_gateway, addresses-IsLastAddress,
}

-- A piece for an address, where there is one.
abbrev pub piece_of : (IpAddr → Piece) → Option IpAddr → List Piece
piece_of piece none = []
piece_of piece (some addr) = piece addr ∷ []

-- The destination with the length of its prefix; or the word for a default route, and its gateway.
abbrev pub start_of : Option IpAddr → Option IpAddr → ℕ → List Piece
start_of (some dst) gateway dst_len = prefix dst dst_len ∷ []
start_of none gateway dst_len = default ∷ piece_of via gateway

-- The protocol and the scope are shown of a scope other than the universe.
pub record IsScope (protocol : Rtprot) (scope : RtScope) (pieces : List Piece) : Type 0 where
  pub of_universe : scope ≡ RtScope.universe → pieces ≡ []
  pub of_other : scope ≢ RtScope.universe → pieces ≡ proto_scope protocol scope ∷ []

-- The line of a route, from the addresses that its attributes hold.
pub record IsLine (route : Rtmsg) (line : List Piece) : Type 0 where
  pub dst : Option IpAddr
  pub src : Option IpAddr
  pub gateway : Option IpAddr
  pub scope : List Piece
  pub is_dst_of : IsLastAddress (payloads is_dst route.rtattrs.items) dst
  pub is_src_of : IsLastAddress (payloads is_prefsrc route.rtattrs.items) src
  pub is_gateway_of : IsLastAddress (payloads is_gateway route.rtattrs.items) gateway
  pub is_scope_of : IsScope route.rtm_protocol route.rtm_scope scope
  pub shown :
      line
      ≡ start_of dst gateway route.rtm_dst_len ++ (scope ++ (piece_of source src ++ (newline ∷ [])))

-- Only routes of the main table are printed.
pub record Prints (route : Rtmsg) (pieces : List Piece) : Type 0 where
  pub of_main : route.rtm_table ≡ RtTable.main → IsLine route pieces
  pub of_other : route.rtm_table ≢ RtTable.main → pieces ≡ []

-- What is printed of the routes of some messages, one after the other.
abbrev pub PrintAll : List (Nlmsghdr ℕ Rtmsg) → List Piece → Type 0
PrintAll [] pieces = pieces ≡ []
PrintAll (m ∷ ms) pieces =
    (line rest : List Piece) × (pieces ≡ line ++ rest) × Prints m.nl_payload line × PrintAll ms rest

is_main_lem : (table : RtTable) → is_main table ≡ true → table ≡ RtTable.main
is_main_lem RtTable.main is = refl
is_main_lem RtTable.unspec is = absurd (ground arith)
is_main_lem RtTable.compat is = absurd (ground arith)
is_main_lem RtTable.default is = absurd (ground arith)
is_main_lem RtTable.local is = absurd (ground arith)
is_main_lem (RtTable.unrecognized_variant i) is = absurd (ground arith)

is_universe_lem : (scope : RtScope) → is_universe scope ≡ true → scope ≡ RtScope.universe
is_universe_lem RtScope.universe is = refl
is_universe_lem RtScope.site is = absurd (ground arith)
is_universe_lem RtScope.link is = absurd (ground arith)
is_universe_lem RtScope.host is = absurd (ground arith)
is_universe_lem RtScope.nowhere is = absurd (ground arith)
is_universe_lem (RtScope.unrecognized_variant i) is = absurd (ground arith)

scoped-IsScope : (m : Rtmsg) → IsScope m.rtm_protocol m.rtm_scope (scoped m)
scoped-IsScope m = record {
  of_universe = λ same. rw same refl;
  of_other = λ differs. elim (Bool-cases (is_universe m.rtm_scope)) [
    | inl is ↦ absurd (differs (is_universe_lem m.rtm_scope is))
    | inr other ↦ rw other refl
  ];
}

abbrev found_in : Rtmsg → Addresses
found_in m = addresses (record { src = none; dst = none; gateway = none }) (Rtattr.iter m.rtattrs)

same_pieces :
    (found : Addresses) (m : Rtmsg)
    → route_line m found
      ≡ start_of found.dst found.gateway m.rtm_dst_len
        ++ (scoped m ++ (piece_of source found.src ++ (newline ∷ [])))
same_pieces found m = go found.dst found.gateway found.src
  where
    source_lem : (src : Option IpAddr) → from_source src ≡ piece_of source src
    source_lem none = refl
    source_lem (some src) = refl

    go :
        (dst gateway src : Option IpAddr)
        → destination dst gateway m.rtm_dst_len ++ (scoped m ++ (from_source src ++ (newline ∷ [])))
          ≡ start_of dst gateway m.rtm_dst_len
            ++ (scoped m ++ (piece_of source src ++ (newline ∷ [])))
    go (some dst) gateway src = rw (source_lem src) refl
    go none none src = rw (source_lem src) refl
    go none (some gateway) src = rw (source_lem src) refl

route_line-IsLine : (m : Rtmsg) → IsLine m (route_line m (found_in m))
route_line-IsLine m =
    let last = addresses-IsLastAddress m.rtattrs.items in
    record {
      dst = (found_in m).dst;
      src = (found_in m).src;
      gateway = (found_in m).gateway;
      scope = scoped m;
      is_dst_of = last.0;
      is_src_of = last.1;
      is_gateway_of = last.2;
      is_scope_of = scoped-IsScope m;
      shown = same_pieces (found_in m) m;
    }

module _ ⦃c : Libc⦄ where
  pub parse_route_table-Prints :
      (m : Nlmsghdr ℕ Rtmsg) → Prints m.nl_payload (parse_route_table (as_rtm m))
  unfolding parse_route_table
  parse_route_table-Prints m = record {
    of_main = λ same.
        let is : is_main m.nl_payload.rtm_table ≡ true = rw same refl in
        rw is (route_line-IsLine m.nl_payload);
    of_other = λ differs. elim (Bool-cases (is_main m.nl_payload.rtm_table)) [
      | inl is ↦ absurd (differs (is_main_lem m.nl_payload.rtm_table is))
      | inr other ↦ rw other refl
    ];
  }
