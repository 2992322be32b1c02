-- ===== src/Tests/Routing.antt =====
-- The theorems on routing messages at concrete inputs.
use neli.Base.{ℕ, ◌≡◌, refl, sym, arith, none, some, List, [], ◌∷◌, length}
use neli.Nl.{alignto}
use neli.Nl.Runs.{Writes, Reads}
use neli.Nl.Bytes.{vec_u8}
use neli.Nl.Laws.{uint_laws, vec_laws, payload_of_fixed}
use neli.Consts.{first_arm, from_value, var}
use neli.Consts.Laws.{var_laws}
use neli.Consts.Rtnl.Families.{rt_addr_family, inet}
use neli.Consts.Rtnl.Interfaces.{arphrd, ether, iff, up}
use neli.Consts.Rtnl.Links.{Ifla, ifla, mtu}
use neli.Consts.Rtnl.Attrs.{Rta, rta, oif}
use neli.Consts.Rtnl.Routes.{rt_table, main, rtprot, boot, rt_scope, universe, rtn, unicast, rtm_f}
use neli.Flags.{flags_from}
use neli.Rtnl.Rtattr
use neli.Rtnl.Rtattr.{Rtattr, Rtattrs, invalid_size}
use neli.Rtnl.Rtattr.RoundTrip.{IsValid}
use neli.Nl.Stops.{Stops, vec_any}
use neli.Consts.Laws.{var_any}
use neli.Rtnl.Rtattr.Total.{AsHinted, rtattrs_total}
use neli.Rtnl.Link.AnyBytes as LinkAny
use neli.Rtnl.Link.AnyBytes.{ifinfomsg-IsPayload}
use neli.Rtnl.Link
use neli.Rtnl.Link.{Ifinfomsg}
use neli.Rtnl.Link.RoundTrip as LinkTrip
use neli.Rtnl.Link.RoundTrip.{ifinfomsg_round_trip}
use neli.Rtnl.Route
use neli.Rtnl.Route.{Rtmsg}
use neli.Rtnl.Route.RoundTrip as RouteTrip
use neli.Rtnl.Route.RoundTrip.{rtmsg_round_trip}
use neli.Tests.Little.{little, linux}

abbrev short_attr : Rtattr ℕ ℕ
short_attr = record { rta_len = 6; rta_type = 3; rta_payload = 500 }

short_attr-IsValid : IsValid (uint_laws 2) (payload_of_fixed (uint_laws 2)) short_attr
unfolding Rtattr.size
short_attr-IsValid = omega arith

-- A link with an MTU of 1500, that is up.
abbrev mtu_attr : Rtattr Ifla (List ℕ)
mtu_attr = record { rta_len = 8; rta_type = mtu; rta_payload = 220 ∷ 5 ∷ 0 ∷ 0 ∷ [] }

abbrev link_attrs : Rtattrs Ifla (List ℕ)
link_attrs = record { items = mtu_attr ∷ [] }

mtu_fits : from_value ifla 4 ≡ mtu
unfolding from_value first_arm
mtu_fits = refl

mtu_attr_size : Rtattr.size (var ifla) vec_u8 mtu_attr ≡ 8
unfolding Rtattr.size
mtu_attr_size = refl

abbrev mtu_attr-IsValid : IsValid (var_laws ifla) vec_laws mtu_attr
mtu_attr-IsValid = record {
  len_is_size = sym mtu_attr_size;
  len_fits = omega arith;
  type_IsValid = (omega arith, mtu_fits);
  payload_IsValid = tt;
}

link_attrs_size : Rtattr.size_items (var ifla) vec_u8 (mtu_attr ∷ []) ≡ 8
unfolding Rtattr.size_items Rtattr.size alignto
link_attrs_size = refl

rtattrs_total_example :
    Stops ⊥
      (Rtattr.deserialize_all (var ifla) vec_u8)
      (some 7)
      9
      (λ self h. AsHinted {X = ⊥} (var_any ifla (λ _. refl)) vec_any (some 7) 9 self)
rtattrs_total_example = rtattrs_total (var_any ifla (λ _. refl)) vec_any (some 7) 9

ifinfomsg-IsPayload_example :
    Stops ⊥ Link.deserialize (some 24) 30 (λ self h. LinkAny.IsPayload 24 30 self)
ifinfomsg-IsPayload_example = ifinfomsg-IsPayload 24 30 (omega arith)

abbrev link : Ifinfomsg
link = record {
  ifi_family = inet;
  ifi_type = ether;
  ifi_index = 2;
  ifi_flags = up ∷ [];
  ifi_change = up;
  rtattrs = link_attrs;
}

inet_fits : from_value rt_addr_family 2 ≡ inet
unfolding from_value first_arm
inet_fits = refl

ether_fits : from_value arphrd 1 ≡ ether
unfolding from_value first_arm
ether_fits = refl

up_fits : from_value iff 1 ≡ up
unfolding from_value first_arm
up_fits = refl

up_split : up ∷ [] ≡ flags_from iff 32 0 1
unfolding flags_from from_value first_arm
up_split = refl

link-IsValid : LinkTrip.IsValid link
link-IsValid = record {
  family_IsEncodable = (omega arith, inet_fits);
  type_IsEncodable = (omega arith, ether_fits);
  index_fits = omega arith;
  flags_AreFlags = record { word = 1; word_fits = omega arith; split = up_split };
  change_IsEncodable = (omega arith, up_fits);
  attrs_AreValid = (mtu_attr-IsValid, tt);
  attrs_IsSmall = omega (arith, link_attrs_size);
}

ifinfomsg_round_trip_example :
    Writes (Link.serialize link) (LinkTrip.bytes link)
    × (length (LinkTrip.bytes link) ≡ Link.size link)
    × Reads Link.deserialize (some (Link.size link)) (LinkTrip.bytes link) link none
ifinfomsg_round_trip_example = ifinfomsg_round_trip link link-IsValid

-- A static default route through the second interface.
abbrev pub oif_attr : Rtattr Rta (List ℕ)
oif_attr = record { rta_len = 8; rta_type = oif; rta_payload = 2 ∷ 0 ∷ 0 ∷ 0 ∷ [] }

abbrev pub route : Rtmsg
route = record {
  rtm_family = inet;
  rtm_dst_len = 0;
  rtm_src_len = 0;
  rtm_tos = 0;
  rtm_table = main;
  rtm_protocol = boot;
  rtm_scope = universe;
  rtm_type = unicast;
  rtm_flags = [];
  rtattrs = record { items = oif_attr ∷ [] };
}

oif_fits : from_value rta 4 ≡ oif
unfolding from_value first_arm
oif_fits = refl

main_fits : from_value rt_table 254 ≡ main
unfolding from_value first_arm
main_fits = refl

boot_fits : from_value rtprot 3 ≡ boot
unfolding from_value first_arm
boot_fits = refl

universe_fits : from_value rt_scope 0 ≡ universe
unfolding from_value first_arm
universe_fits = refl

unicast_fits : from_value rtn 1 ≡ unicast
unfolding from_value first_arm
unicast_fits = refl

oif_attr_size : Rtattr.size (var rta) vec_u8 oif_attr ≡ 8
unfolding Rtattr.size
oif_attr_size = refl

route_attrs_size : Rtattr.size_items (var rta) vec_u8 (oif_attr ∷ []) ≡ 8
unfolding Rtattr.size_items Rtattr.size alignto
route_attrs_size = refl

no_flags : [] ≡ flags_from rtm_f 32 0 0
unfolding flags_from from_value first_arm
no_flags = refl

pub route-IsValid : RouteTrip.IsValid route
route-IsValid = record {
  family_IsEncodable = (omega arith, inet_fits);
  dst_len_fits = omega arith;
  src_len_fits = omega arith;
  tos_fits = omega arith;
  table_IsEncodable = (omega arith, main_fits);
  protocol_IsEncodable = (omega arith, boot_fits);
  scope_IsEncodable = (omega arith, universe_fits);
  type_IsEncodable = (omega arith, unicast_fits);
  flags_AreFlags = record { word = 0; word_fits = omega arith; split = no_flags };
  attrs_AreValid = (
    record {
      len_is_size = sym oif_attr_size;
      len_fits = omega arith;
      type_IsValid = (omega arith, oif_fits);
      payload_IsValid = tt;
    },
    tt,
  );
  attrs_IsSmall = omega (arith, route_attrs_size);
}

rtmsg_round_trip_example :
    Writes (Route.serialize route) (RouteTrip.bytes route)
    × (length (RouteTrip.bytes route) ≡ Route.size route)
    × Reads Route.deserialize (some (Route.size route)) (RouteTrip.bytes route) route none
rtmsg_round_trip_example = rtmsg_round_trip route route-IsValid
