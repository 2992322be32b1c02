-- ===== src/Examples/RouteList.antt =====
-- examples/route-list.rs: an imitation of `ip route`.
pub mod Order
pub mod Short
pub mod Lookup
pub mod Lines
pub mod Loop
use neli.Base.{ℕ, zero, suc, ◌==◌, if◌then◌else◌, Bool, true, false, Option, none, some}
use neli.Base.{List, [], ◌∷◌, ◌++◌, length}
use neli.Outcome.{Result, ok, err, panic, out_of_fuel, pure, throw, ◌>>=◌, ◌>>◌}
use neli.Err.{NlError, msg}
use neli.Buffering.{Libc, Buffering}
use neli.Nl.Uint.{u16}
use neli.Consts.{var, from_value}
use neli.Consts.Messages.{Nlmsg, nlmsg, NlmF}
use neli.Consts.Rtm.{Rtm, rtm}
use neli.Consts.Socket.{NlFamily}
use neli.Consts.Rtnl.Families.{RtAddrFamily}
use neli.Consts.Rtnl.Routes.{Rtn, Rtprot, RtScope, RtTable}
use neli.Consts.Rtnl.Attrs.{Rta}
use neli.Nlmsghdr
use neli.Nlmsghdr.{Nlmsghdr}
use neli.Rtnl.Rtattr
use neli.Rtnl.Rtattr.{Rtattr}
use neli.Rtnl.Route.{Rtmsg, rtmsg}
use neli.Kernel.{Kernel}
use neli.Socket.{connect}
use neli.Socket.Messages.{send_nl, recv_nl}
use neli.Examples.{Left, Program, on_socket, on_socket_unwrapped, print, with_socket_unwrapped}

-- `std::net::IpAddr`, by its bytes
pub data IpAddr : Type 0 where
  v4 v6 : List ℕ → IpAddr

unfoldable pub to_addr : List ℕ → Option IpAddr
to_addr b = if length b == 4 then some (v4 b) else if length b == 16 then some (v6 b) else none

pub record Addresses : Type 0 where
  pub src : Option IpAddr
  pub dst : Option IpAddr
  pub gateway : Option IpAddr

abbrev pub noted : Rta → Option IpAddr → Addresses → Addresses
noted Rta.dst addr found = record found { dst = addr }
noted Rta.prefsrc addr found = record found { src = addr }
noted Rta.gateway addr found = record found { gateway = addr }
noted other addr found = found

-- The loop over the attributes.
unfoldable pub addresses : Addresses → List (Rtattr Rta (List ℕ)) → Addresses
addresses found [] = found
addresses found (attr ∷ attrs) =
    addresses (noted attr.rta_type (to_addr attr.rta_payload) found) attrs

-- What the calls of `print!` and `println!` format.
pub data Piece : Type 0 where
  prefix : IpAddr → ℕ → Piece
  default : Piece
  via : IpAddr → Piece
  proto_scope : Rtprot → RtScope → Piece
  source : IpAddr → Piece
  newline : Piece

abbrev pub is_main : RtTable → Bool
is_main RtTable.main = true
is_main other = false

abbrev pub is_universe : RtScope → Bool
is_universe RtScope.universe = true
is_universe other = false

abbrev pub via_gateway : Option IpAddr → List Piece
via_gateway none = []
via_gateway (some gateway) = via gateway ∷ []

abbrev pub destination : Option IpAddr → Option IpAddr → ℕ → List Piece
destination (some dst) gateway dst_len = prefix dst dst_len ∷ []
destination none gateway dst_len = default ∷ via_gateway gateway

abbrev pub from_source : Option IpAddr → List Piece
from_source none = []
from_source (some src) = source src ∷ []

abbrev pub scoped : Rtmsg → List Piece
scoped m = if is_universe m.rtm_scope then [] else proto_scope m.rtm_protocol m.rtm_scope ∷ []

abbrev pub route_line : Rtmsg → Addresses → List Piece
route_line m found =
    destination found.dst found.gateway m.rtm_dst_len
    ++ (scoped m ++ (from_source found.src ++ (newline ∷ [])))

unfoldable pub parse_route_table : Nlmsghdr Rtm Rtmsg → List Piece
parse_route_table m =
    if is_main m.nl_payload.rtm_table
    then route_line m.nl_payload (
        addresses (record { src = none; dst = none; gateway = none })
          (Rtattr.iter m.nl_payload.rtattrs))
    else []

abbrev pub is_multi : List NlmF → Bool
is_multi [] = false
is_multi (NlmF.multi ∷ flags) = true
is_multi (other ∷ flags) = is_multi flags

module _ ⦃c : Libc⦄ where
  -- The message with its type converted.
  abbrev pub as_rtm : Nlmsghdr ℕ Rtmsg → Nlmsghdr Rtm Rtmsg
  as_rtm nl = record {
    nl_len = nl.nl_len;
    nl_type = from_value rtm nl.nl_type;
    nl_flags = nl.nl_flags;
    nl_seq = nl.nl_seq;
    nl_pid = nl.nl_pid;
    nl_payload = nl.nl_payload;
  }

module _ ⦃c : Libc⦄ ⦃b : Buffering⦄ (k : Kernel) where
  -- The `match` on the type, before the next round.
  abbrev pub sorted : Program k Piece Unit → Nlmsghdr ℕ Rtmsg → Nlmsg → Program k Piece Unit
  sorted rest nl Nlmsg.done = pure tt
  sorted rest nl Nlmsg.error = throw (msg "rtnetlink error.")
  sorted rest nl other = print k (parse_route_table (as_rtm nl)) >> rest

  -- `while let Ok(nl) = …` ends at the first error.
  abbrev pub heard : Program k Piece Unit → Result NlError (Nlmsghdr ℕ Rtmsg) → Program k Piece Unit
  heard rest (ok nl) s = sorted rest nl (from_value nlmsg nl.nl_type) s
  heard rest (err e) s = (ok tt, s)
  heard rest panic s = (panic, s)
  heard rest out_of_fuel s = (out_of_fuel, s)

  -- The loop, on fuel: the program bounds the rounds by nothing.
  unfoldable pub listen : ℕ → Program k Piece Unit
  listen zero s = (out_of_fuel, s)
  listen (suc fuel) s =
      let (r, h) = recv_nl k u16 rtmsg none s.host in heard (listen fuel) r (record s { host = h })

  abbrev pub request : Nlmsghdr Rtm Rtmsg
  request =
      Nlmsghdr.new (var rtm) rtmsg none Rtm.getroute (NlmF.request ∷ NlmF.dump ∷ []) none none
        (record {
          rtm_family = RtAddrFamily.inet;
          rtm_dst_len = 0;
          rtm_src_len = 0;
          rtm_tos = 0;
          rtm_table = RtTable.unspec;
          rtm_protocol = Rtprot.unspec;
          rtm_scope = RtScope.universe;
          rtm_type = Rtn.unspec;
          rtm_flags = [];
          rtattrs = Rtattr.empty;
        })

  -- After the request: the first answer, and the others where it is one of several.
  unfoldable pub receive : ℕ → Program k Piece Unit
  unfolding listen
  receive fuel = do
    nl ← on_socket k (recv_nl k (var rtm) rtmsg none)
    print k (parse_route_table nl)
    if is_multi nl.nl_flags then listen fuel else pure tt

  abbrev pub program : ℕ → Program k Piece Unit
  unfolding receive
  program fuel = on_socket_unwrapped k (send_nl k (var rtm) rtmsg request) >> receive fuel

  unfoldable pub main : ℕ → k.World → Result NlError Unit × Left k Piece
  main fuel = with_socket_unwrapped k (connect k NlFamily.route none none true) (program fuel)
