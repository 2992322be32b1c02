-- ===== src/Tests/Families.antt =====
-- The theorem on examples/ctrl-list.rs at a concrete input.
use neli.Base.{ℕ, ◌≡◌, refl, sym, arith, none, List, [], ◌∷◌, ◌++◌}
use neli.Outcome.{ok}
use neli.Nl.Text.Utf8.{utf8_error}
use neli.Nl.Text.{has_nul}
use neli.Nl.Text.Laws.{IsText}
use neli.Consts.{first_arm, from_value, var}
use neli.Consts.Laws.{var_laws, IsEncodable}
use neli.Consts.Messages.{Nlmsg, nlmsg, multi}
use neli.Consts.Genl.{CtrlCmd, ctrl_cmd, getfamily}
use neli.Consts.Attrs.{CtrlAttr, ctrl_attr, family_name, family_id}
use neli.Nl.{alignto}
use neli.Nl.Bytes.{vec_u8}
use neli.Nlattr
use neli.Nlattr.{Nlattr}
use neli.Nlmsghdr.RoundTrip as Header
use neli.Genlmsghdr
use neli.Genlmsghdr.{Genlmsghdr}
use neli.Genlmsghdr.RoundTrip as Generic
use neli.Genlmsghdr.RoundTrip.{genl_laws}
use neli.Examples.{Session}
use neli.Examples.CtrlList as Ctrl
use neli.Examples.CtrlList.{Line, Response, name, id}
use neli.Examples.CtrlList.Order as Families
use neli.Examples.CtrlList.Order.{listen-Lists}
use neli.Tests.Little.{little, linux, encode}
use neli.Tests.Socket.{replay}
use neli.Tests.Routes.{fresh, multi-AreFlags, done_type}

-- The family "nl" with the identifier 24, and the end of the dump.
abbrev names : Nlattr CtrlAttr (List ℕ)
names = record { nla_len = 7; nla_type = family_name; payload = 110 ∷ 108 ∷ 0 ∷ [] }

abbrev ids : Nlattr CtrlAttr (List ℕ)
ids = record { nla_len = 6; nla_type = family_id; payload = 24 ∷ 0 ∷ [] }

abbrev described : Genlmsghdr CtrlCmd CtrlAttr
described = record { cmd = getfamily; version = 2; reserved = 0; attrs = names ∷ ids ∷ [] }

getfamily_fits : from_value ctrl_cmd 3 ≡ getfamily
unfolding from_value first_arm
getfamily_fits = refl

name_fits : from_value ctrl_attr 2 ≡ family_name
unfolding from_value first_arm
name_fits = refl

id_fits : from_value ctrl_attr 1 ≡ family_id
unfolding from_value first_arm
id_fits = refl

described_size : Genlmsghdr.size (var ctrl_cmd) (var ctrl_attr) described ≡ 20
unfolding Genlmsghdr.size Nlattr.asize_all Nlattr.size alignto
described_size = refl

sizes :
    (Nlattr.size (var ctrl_attr) vec_u8 names ≡ 7) × (Nlattr.size (var ctrl_attr) vec_u8 ids ≡ 6)
unfolding Nlattr.size
sizes = (refl, refl)

described-IsValid : Generic.IsValid (var_laws ctrl_cmd) (var_laws ctrl_attr) described
described-IsValid = record {
  cmd_IsValid = (omega arith, getfamily_fits);
  version_fits = omega arith;
  reserved_fits = omega arith;
  attrs_IsValid = (
    record {
      len_is_size = sym sizes.0;
      len_fits = omega arith;
      type_IsValid = (omega arith, name_fits);
      payload_IsValid = tt;
    },
    (
      record {
        len_is_size = sym sizes.1;
        len_fits = omega arith;
        type_IsValid = (omega arith, id_fits);
        payload_IsValid = tt;
      },
      tt,
    ),
  );
  IsSmall_size = omega (arith, described_size);
}

abbrev response : Nlmsg → Response
response ty = record {
  nl_len = 36;
  nl_type = ty;
  nl_flags = multi ∷ [];
  nl_seq = 0;
  nl_pid = 7;
  nl_payload = described;
}

response-IsResponse : (ty : Nlmsg) → IsEncodable nlmsg ty → Families.IsResponse (response ty)
response-IsResponse ty v = record {
  len_is_size = omega (
    arith,
    Header.size_lem (var_laws nlmsg) (genl_laws (var_laws ctrl_cmd) (var_laws ctrl_attr))
        (response ty),
    described_size,
  );
  len_fits = omega arith;
  type_IsValid = v;
  flags_AreFlags = multi-AreFlags;
  seq_fits = omega arith;
  pid_fits = omega arith;
  payload_IsValid = described-IsValid;
}

family_type : from_value nlmsg 16 ≡ Nlmsg.unrecognized_variant 16
unfolding from_value first_arm
family_type = refl

nl-IsText : IsText (110 ∷ 108 ∷ [])
unfolding utf8_error has_nul
nl-IsText = record { is_utf8 = refl; no_nul = refl }

two_bytes : 24 ∷ 0 ∷ [] ≡ encode 2 24 ++ []
unfolding encode
two_bytes = refl

abbrev families : Session replay Line
families = record {
  host = record {
    socket = fresh;
    world =
        Families.datagram (response (Nlmsg.unrecognized_variant 16) ∷ response Nlmsg.done ∷ [])
        ∷ [];
  };
  printed = [];
}

listen-Lists_example :
    Families.Lists replay
      (Ctrl.listen replay 2 families)
      (ok tt)
      ([] ++ (name (110 ∷ 108 ∷ []) ∷ id 24 ∷ []))
listen-Lists_example =
    listen-Lists replay 1 families (response (Nlmsg.unrecognized_variant 16) ∷ [])
      (response Nlmsg.done) [] [] none (name (110 ∷ 108 ∷ []) ∷ id 24 ∷ []) (omega arith) refl
      (response-IsResponse (Nlmsg.unrecognized_variant 16) (omega arith, family_type), tt)
      (response-IsResponse Nlmsg.done (omega arith, done_type)) (none, refl, (none, refl, refl))
      (refl, tt) refl
      (
        name (110 ∷ 108 ∷ []) ∷ id 24 ∷ [],
        [],
        (
          name (110 ∷ 108 ∷ []) ∷ [],
          id 24 ∷ [],
          (110 ∷ 108 ∷ [], nl-IsText, 0, refl, refl),
          (id 24 ∷ [], [], (24, omega arith, [], two_bytes, refl), refl, refl),
          refl,
        ),
        refl,
        refl,
      )
      refl
