-- ===== src/Tests/Neighbours.antt =====
-- The theorems on neighbour and queueing messages at concrete inputs.
use neli.Base.{ℕ, ◌+◌, ◌≡◌, refl, sym, arith, none, some, List, [], ◌∷◌, length}
use neli.Nl.{alignto}
use neli.Nl.Runs.{Writes, Reads}
use neli.Nl.Bytes.{vec_u8}
use neli.Consts.{first_arm, from_value, var}
use neli.Consts.Laws.{var_laws}
use neli.Consts.Rtnl.Families.{rt_addr_family, inet}
use neli.Consts.Rtnl.Neighbours.{Nda, nda, nud, ntf}
use neli.Consts.Rtnl.Attrs.{Tca, tca}
use neli.Consts.Rtnl.Routes.{rtn, unicast}
use neli.Flags.{flags_from}
use neli.Rtnl.Rtattr
use neli.Rtnl.Rtattr.{Rtattr, Rtattrs}
use neli.Rtnl.Rtattr.Lists.{sizes}
use neli.Rtnl.Neighbour.{Ndmsg, NdaCacheinfo}
use neli.Rtnl.Neighbour.RoundTrip as NeighbourTrip
use neli.Rtnl.Neighbour.RoundTrip.{ndmsg_round_trip, nda_cacheinfo_round_trip}
use neli.Rtnl.Queueing
use neli.Rtnl.Queueing.{Tcmsg}
use neli.Rtnl.Queueing.RoundTrip as QueueingTrip
use neli.Rtnl.Queueing.RoundTrip.{tcmsg_round_trip}
use neli.Tests.Little.{little, linux}

inet_fits : from_value rt_addr_family 2 ≡ inet
unfolding from_value first_arm
inet_fits = refl

unicast_fits : from_value rtn 1 ≡ unicast
unfolding from_value first_arm
unicast_fits = refl

-- The link-layer address of a neighbour.
abbrev lladdr : Rtattr Nda (List ℕ)
lladdr = record { rta_len = 10; rta_type = Nda.lladdr; rta_payload = 2 ∷ 0 ∷ 94 ∷ 16 ∷ 0 ∷ 1 ∷ [] }

lladdr_fits : from_value nda 2 ≡ Nda.lladdr
unfolding from_value first_arm
lladdr_fits = refl

lladdr_size : Rtattr.size (var nda) vec_u8 lladdr ≡ 10
unfolding Rtattr.size
lladdr_size = refl

lladdr_attrs_size : Rtattr.size_items (var nda) vec_u8 (lladdr ∷ []) ≡ 12
unfolding Rtattr.size_items Rtattr.size alignto
lladdr_attrs_size = refl

abbrev neighbour : Ndmsg
neighbour = record {
  ndm_family = inet;
  ndm_index = 3;
  ndm_state = flags_from nud 16 0 2;
  ndm_flags = [];
  ndm_type = unicast;
  rtattrs = record { items = lladdr ∷ [] };
}

no_flags : [] ≡ flags_from ntf 8 0 0
unfolding flags_from from_value first_arm
no_flags = refl

neighbour-IsValid : NeighbourTrip.IsValid neighbour
neighbour-IsValid = record {
  ndm_family_IsEncodable = (omega arith, inet_fits);
  ndm_index_fits = omega arith;
  ndm_state_AreFlags = record { word = 2; word_fits = omega arith; split = refl };
  ndm_flags_AreFlags = record { word = 0; word_fits = omega arith; split = no_flags };
  ndm_type_IsEncodable = (omega arith, unicast_fits);
  attrs_AreValid = (
    record {
      len_is_size = sym lladdr_size;
      len_fits = omega arith;
      type_IsValid = (omega arith, lladdr_fits);
      payload_IsValid = tt;
    },
    tt,
  );
  attrs_IsSmall = omega (arith, lladdr_attrs_size);
}

-- The kind of a queueing discipline.
abbrev kind : Rtattr Tca (List ℕ)
kind = record { rta_len = 7; rta_type = Tca.kind; rta_payload = 116 ∷ 98 ∷ 0 ∷ [] }

kind_fits : from_value tca 1 ≡ Tca.kind
unfolding from_value first_arm
kind_fits = refl

kind_size : Rtattr.size (var tca) vec_u8 kind ≡ 7
unfolding Rtattr.size
kind_size = refl

kind_attrs_size : Rtattr.size_items (var tca) vec_u8 (kind ∷ []) ≡ 8
unfolding Rtattr.size_items Rtattr.size alignto
kind_attrs_size = refl

abbrev discipline : Tcmsg
discipline = record {
  tcm_family = 0;
  tcm_ifindex = 3;
  tcm_handle = 65536;
  tcm_parent = 4294967295;
  tcm_info = 2;
  rtattrs = record { items = kind ∷ [] };
}

discipline-IsValid : QueueingTrip.IsValid discipline
discipline-IsValid = record {
  tcm_family_fits = omega arith;
  tcm_ifindex_fits = omega arith;
  tcm_handle_fits = omega arith;
  tcm_parent_fits = omega arith;
  tcm_info_fits = omega arith;
  attrs_AreValid = (
    record {
      len_is_size = sym kind_size;
      len_fits = omega arith;
      type_IsValid = (omega arith, kind_fits);
      payload_IsValid = tt;
    },
    tt,
  );
  attrs_IsSmall = omega (arith, kind_attrs_size);
}

tcmsg_round_trip_example :
    Writes (Queueing.serialize discipline) (QueueingTrip.bytes discipline)
    × (length (QueueingTrip.bytes discipline)
        ≡ Queueing.size discipline + sizes (var_laws tca) (kind ∷ []))
    × Reads Queueing.deserialize
        (some (20 + sizes (var_laws tca) (kind ∷ [])))
        (QueueingTrip.bytes discipline)
        discipline
        none
tcmsg_round_trip_example = tcmsg_round_trip discipline discipline-IsValid

abbrev cache : NdaCacheinfo
cache = record { ndm_confirmed = 10; ndm_used = 70000; ndm_updated = 4294967295; ndm_refcnt = 1 }
