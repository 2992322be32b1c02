-- ===== src/Tests/Groups.antt =====
-- `resolve_nl_mcast_group` on a kernel that describes one group.
use neli.Base.{ℕ, ◌≡◌, refl, sym, arith, some, none, List, [], ◌∷◌}
use neli.Buffering.{All}
use neli.Nl.{alignto}
use neli.Nl.Bytes.{vec_u8}
use neli.Nl.Laws.{uint_laws, payload_of_fixed, vec_laws}
use neli.Nl.Text.{has_nul}
use neli.Nl.Text.Utf8.{utf8_error}
use neli.Nl.Text.Laws.{IsText, string_laws}
use neli.Consts.{first_arm, from_value, var}
use neli.Consts.Laws.{var_laws}
use neli.Consts.Attrs.{CtrlAttr, ctrl_attr, CtrlAttrMcastGrp, ctrl_attr_mcast_grp}
use neli.Consts.Genl.{ctrl_cmd, newfamily}
use neli.Consts.Messages.{genl_id, ctrl}
use neli.Nlattr
use neli.Nlattr.{Nlattr}
use neli.Nlattr.RoundTrip.{IsValid as IsValidAttr}
use neli.Nlattr.Lists.{bytes_all, length-bytes_all}
use neli.Nlattr.Build.Laws.{made, made-IsValid}
use neli.Nlattr.Handle
use neli.Nlattr.Handle.{get_attribute}
use neli.Nlmsghdr.RoundTrip as Header
use neli.Genlmsghdr
use neli.Socket.Messages.Receive.Queue.{frames, with_queue}
use neli.Socket.Resolve.{Family, resolve_nl_mcast_group, eq_attr, eq_mcast_grp}
use neli.Socket.Resolve.Laws.{families, Answers}
use neli.Socket.Resolve.Groups.{
  Group, lookup, name_of, id_of, Describes, resolve_nl_mcast_group-lookup,
}
use neli.Tests.Little.{little, linux, encode}
use neli.Tests.Socket.{replay, no_flags-AreFlags, answer, answer-IsAnswer, wire_ack}
use neli.Tests.Resolve.{name, host, ctrl_fits, newfamily_fits, request-IsValid, request-IsSmall}

-- The group 5, of the name "mc".
abbrev group : Group
group = record { name = 109 ∷ 99 ∷ []; id = 5 }

name_fits : from_value ctrl_attr_mcast_grp 1 ≡ CtrlAttrMcastGrp.name
unfolding from_value first_arm
name_fits = refl

id_fits : from_value ctrl_attr_mcast_grp 2 ≡ CtrlAttrMcastGrp.id
unfolding from_value first_arm
id_fits = refl

first_fits : from_value ctrl_attr_mcast_grp 7 ≡ CtrlAttrMcastGrp.unrecognized_variant 7
unfolding from_value first_arm
first_fits = refl

groups_fits : from_value ctrl_attr 7 ≡ CtrlAttr.mcast_groups
unfolding from_value first_arm
groups_fits = refl

-- In the order of the kernel.
abbrev attrs : List (Nlattr CtrlAttrMcastGrp (List ℕ))
attrs = id_of group ∷ name_of group ∷ []

name-IsText : IsText group.name
unfolding utf8_error has_nul
name-IsText = record { is_utf8 = refl; no_nul = refl }

attrs-AreValid : All (IsValidAttr (var_laws ctrl_attr_mcast_grp) vec_laws) (attrs)
attrs-AreValid = (
  made-IsValid (var_laws ctrl_attr_mcast_grp) (payload_of_fixed (uint_laws 4)) CtrlAttrMcastGrp.id 5
      (omega arith, id_fits) (omega arith) (omega arith),
  (
    made-IsValid (var_laws ctrl_attr_mcast_grp) string_laws CtrlAttrMcastGrp.name group.name
        (omega arith, name_fits) name-IsText (omega arith),
    tt,
  ),
)

named : get_attribute eq_mcast_grp (Handle.owned attrs) CtrlAttrMcastGrp.name ≡ some (name_of group)
unfolding get_attribute made eq_mcast_grp
named = refl

identified :
    get_attribute eq_mcast_grp (Handle.owned attrs) CtrlAttrMcastGrp.id ≡ some (id_of group)
unfolding get_attribute made eq_mcast_grp
identified = refl

attrs_size : Nlattr.asize_all (var ctrl_attr_mcast_grp) vec_u8 (attrs) ≡ 16
unfolding encode made Nlattr.asize_all Nlattr.size alignto
attrs_size = refl

abbrev item : Nlattr CtrlAttrMcastGrp (List ℕ)
item = record {
  nla_len = 20;
  nla_type = CtrlAttrMcastGrp.unrecognized_variant 7;
  payload = bytes_all (var_laws ctrl_attr_mcast_grp) vec_laws (attrs);
}

item_size : Nlattr.size (var ctrl_attr_mcast_grp) vec_u8 item ≡ 20
unfolding Nlattr.size
item_size = omega (
  arith,
  length-bytes_all (var_laws ctrl_attr_mcast_grp) vec_laws (attrs) attrs-AreValid,
  attrs_size,
)

item-IsValid : IsValidAttr (var_laws ctrl_attr_mcast_grp) vec_laws item
item-IsValid = record {
  len_is_size = sym item_size;
  len_fits = omega arith;
  type_IsValid = (omega arith, first_fits);
  payload_IsValid = tt;
}

items_size : Nlattr.asize_all (var ctrl_attr_mcast_grp) vec_u8 (item ∷ []) ≡ 20
unfolding Nlattr.asize_all alignto
items_size = rw item_size refl

abbrev groups_attr : Nlattr CtrlAttr (List ℕ)
groups_attr = record {
  nla_len = 24;
  nla_type = CtrlAttr.mcast_groups;
  payload = bytes_all (var_laws ctrl_attr_mcast_grp) vec_laws (item ∷ []);
}

groups_attr_size : Nlattr.size (var ctrl_attr) vec_u8 groups_attr ≡ 24
unfolding Nlattr.size
groups_attr_size = omega (
  arith,
  length-bytes_all (var_laws ctrl_attr_mcast_grp) vec_laws (item ∷ []) (item-IsValid, tt),
  items_size,
)

abbrev reply : Family
reply = record {
  nl_len = 44;
  nl_type = ctrl;
  nl_flags = [];
  nl_seq = 0;
  nl_pid = 7;
  nl_payload = record { cmd = newfamily; version = 2; reserved = 0; attrs = groups_attr ∷ [] };
}

reply_size : Genlmsghdr.size (var ctrl_cmd) (var ctrl_attr) reply.nl_payload ≡ 28
unfolding Nlattr.asize_all alignto Genlmsghdr.size
reply_size = rw groups_attr_size refl

reply-IsValid : Header.IsValid (var_laws genl_id) families reply
reply-IsValid = record {
  len_is_size = omega (arith, Header.size_lem (var_laws genl_id) families reply, reply_size);
  len_fits = omega arith;
  type_IsValid = (omega arith, ctrl_fits);
  flags_AreFlags = no_flags-AreFlags;
  seq_fits = omega arith;
  pid_fits = omega arith;
  payload_IsValid = record {
    cmd_IsValid = (omega arith, newfamily_fits);
    version_fits = omega arith;
    reserved_fits = omega arith;
    attrs_IsValid = (
      record {
        len_is_size = sym groups_attr_size;
        len_fits = omega arith;
        type_IsValid = (omega arith, groups_fits);
        payload_IsValid = tt;
      },
      tt,
    );
    IsSmall_size = omega (arith, reply_size);
  };
}

found :
    get_attribute eq_attr (Genlmsghdr.get_attr_handle reply.nl_payload) CtrlAttr.mcast_groups
    ≡ some groups_attr
unfolding get_attribute eq_attr Genlmsghdr.get_attr_handle Handle.new_borrowed
found = refl

abbrev datagrams : List (List ℕ)
datagrams = frames (var_laws genl_id) families (reply ∷ []) ∷ wire_ack ∷ []

abbrev kernel : Answers replay (host datagrams) name reply none []
kernel = record {
  taken = _;
  asked = datagrams;
  told = _;
  between = none;
  acked = answer 0;
  sends = refl;
  replies = refl;
  acks = refl;
  reply_IsValid = reply-IsValid;
  reply_accepted = refl;
  acked_IsAnswer = answer-IsAnswer 0 (omega arith);
  acked_accepted = refl;
  acked_IsAck = (refl, refl);
}

described : Describes item group
described = record {
  attrs = attrs;
  holds = refl;
  attrs_AreValid = attrs-AreValid;
  named = named;
  numbered = identified;
  name_IsText = name-IsText;
  id_fits = omega arith;
}

resolve_nl_mcast_group-lookup_example :
    resolve_nl_mcast_group replay name (109 ∷ 99 ∷ []) (host datagrams)
    ≡ (lookup (109 ∷ 99 ∷ []) (group ∷ []), with_queue replay (host []) none none)
resolve_nl_mcast_group-lookup_example =
    resolve_nl_mcast_group-lookup replay (host datagrams) name (109 ∷ 99 ∷ []) reply groups_attr
      (item ∷ []) (group ∷ []) none [] refl refl request-IsValid request-IsSmall kernel found refl
      (item-IsValid, tt) (described, tt)
