-- ===== src/Tests/Resolve.antt =====
-- `resolve_genl_family` on a kernel that answers.
use neli.Base.{ℕ, ◌≡◌, refl, arith, some, none, List, [], ◌∷◌}
use neli.Outcome.{ok, err}
use neli.Nl.{alignto}
use neli.Nl.Padding.{IsSmall}
use neli.Nl.Laws.{uint_laws, payload_of_fixed}
use neli.Consts.{first_arm, from_value, var}
use neli.Consts.Laws.{var_laws}
use neli.Consts.Attrs.{CtrlAttr, ctrl_attr}
use neli.Consts.Genl.{ctrl_cmd, getfamily, newfamily}
use neli.Consts.Messages.{genl_id, ctrl}
use neli.Nlattr
use neli.Nlattr.{Nlattr}
use neli.Nlattr.Build.Laws.{made, made-IsValid}
use neli.Nlattr.Handle
use neli.Nlattr.Handle.{get_attribute}
use neli.Nlmsghdr
use neli.Nlmsghdr.RoundTrip as Header
use neli.Genlmsghdr
use neli.Socket.{Host}
use neli.Socket.Messages.Receive.Queue.{frames, with_queue}
use neli.Socket.Resolve.{Family, family, resolve_genl_family, resolve_nl_mcast_group, eq_attr}
use neli.Socket.Resolve.Laws.{families, request_for, Answers, resolve_genl_family_lem}
use neli.Socket.Resolve.Tracked.{resolve_tracked}
use neli.Err.{bad_seq}
use neli.Tests.Little.{little, linux, encode}
use neli.Tests.Socket.{replay, no_flags-AreFlags, answer, answer-IsAnswer, wire_ack}

-- "nl80"
abbrev pub name : List ℕ
name = 110 ∷ 108 ∷ 56 ∷ 48 ∷ []

name_fits : from_value ctrl_attr 2 ≡ CtrlAttr.family_name
unfolding from_value first_arm
name_fits = refl

id_fits : from_value ctrl_attr 1 ≡ CtrlAttr.family_id
unfolding from_value first_arm
id_fits = refl

getfamily_fits : from_value ctrl_cmd 3 ≡ getfamily
unfolding from_value first_arm
getfamily_fits = refl

pub newfamily_fits : from_value ctrl_cmd 1 ≡ newfamily
unfolding from_value first_arm
newfamily_fits = refl

pub ctrl_fits : from_value genl_id 16 ≡ ctrl
unfolding from_value first_arm
ctrl_fits = refl

request_size : Genlmsghdr.size (var ctrl_cmd) (var ctrl_attr) (request_for name).nl_payload ≡ 16
unfolding Nlmsghdr.new Nlattr.asize_all Nlattr.size alignto Genlmsghdr.size
request_size = refl

pub request-IsValid : families.IsValid (request_for name).nl_payload
unfolding Nlmsghdr.new Nlattr.size
request-IsValid = record {
  cmd_IsValid = (omega arith, getfamily_fits);
  version_fits = omega arith;
  reserved_fits = omega arith;
  attrs_IsValid = (
    record {
      len_is_size = refl;
      len_fits = omega arith;
      type_IsValid = (omega arith, name_fits);
      payload_IsValid = tt;
    },
    tt,
  );
  IsSmall_size = omega (arith, request_size);
}

pub request-IsSmall : IsSmall (Nlmsghdr.size (var genl_id) family (request_for name))
request-IsSmall =
    omega (arith, Header.size_lem (var_laws genl_id) families (request_for name), request_size)

abbrev numbered : Nlattr CtrlAttr (List ℕ)
numbered = made (var_laws ctrl_attr) (payload_of_fixed (uint_laws 2)) CtrlAttr.family_id 28

-- The family 28.
abbrev reply : Family
reply = record {
  nl_len = 28;
  nl_type = ctrl;
  nl_flags = [];
  nl_seq = 0;
  nl_pid = 7;
  nl_payload = record { cmd = newfamily; version = 2; reserved = 0; attrs = numbered ∷ [] };
}

reply_size : Genlmsghdr.size (var ctrl_cmd) (var ctrl_attr) reply.nl_payload ≡ 12
unfolding encode made Nlattr.asize_all Nlattr.size alignto Genlmsghdr.size
reply_size = refl

reply-IsValid : Header.IsValid (var_laws genl_id) families reply
reply-IsValid = record {
  len_is_size = omega (arith, Header.size_lem (var_laws genl_id) families reply, reply_size);
  len_fits = omega arith;
  type_IsValid = (omega arith, ctrl_fits);
  flags_AreFlags = no_flags-AreFlags;
  seq_fits = omega arith;
  pid_fits = omega arith;
  payload_IsValid = record {
    cmd_IsValid = (omega arith, newfamily_fits);
    version_fits = omega arith;
    reserved_fits = omega arith;
    attrs_IsValid = (
      made-IsValid (var_laws ctrl_attr) (payload_of_fixed (uint_laws 2)) CtrlAttr.family_id 28
          (omega arith, id_fits) (omega arith) (omega arith),
      tt,
    );
    IsSmall_size = omega (arith, reply_size);
  };
}

found :
    get_attribute eq_attr (Genlmsghdr.get_attr_handle reply.nl_payload) CtrlAttr.family_id
    ≡ some numbered
unfolding get_attribute made eq_attr Genlmsghdr.get_attr_handle Handle.new_borrowed
found = refl

abbrev pub host : List (List ℕ) → Host replay
host w = record { socket = record { fd = 3; buffer = none; pid = none; seq = none }; world = w }

abbrev datagrams : List (List ℕ)
datagrams = frames (var_laws genl_id) families (reply ∷ []) ∷ wire_ack ∷ []

abbrev kernel : Answers replay (host datagrams) name reply none []
kernel = record {
  taken = _;
  asked = datagrams;
  told = _;
  between = none;
  acked = answer 0;
  sends = refl;
  replies = refl;
  acks = refl;
  reply_IsValid = reply-IsValid;
  reply_accepted = refl;
  acked_IsAnswer = answer-IsAnswer 0 (omega arith);
  acked_accepted = refl;
  acked_IsAck = (refl, refl);
}

resolve_genl_family_lem_example :
    resolve_genl_family replay name (host datagrams)
    ≡ (ok 28, with_queue replay (host []) none none)
resolve_genl_family_lem_example =
    resolve_genl_family_lem replay (host datagrams) name reply 28 none [] refl refl request-IsValid
      request-IsSmall kernel (omega arith) found

-- A socket that counts its messages, before the one that the ack is for.
abbrev counting : Host replay
counting = record {
  socket = record { fd = 3; buffer = none; pid = none; seq = some 3 };
  world = datagrams;
}

abbrev kernel_counting : Answers replay counting name reply none []
kernel_counting = record {
  taken = _;
  asked = datagrams;
  told = _;
  between = none;
  acked = answer 0;
  sends = refl;
  replies = refl;
  acks = refl;
  reply_IsValid = reply-IsValid;
  reply_accepted = refl;
  acked_IsAnswer = answer-IsAnswer 0 (omega arith);
  acked_accepted = refl;
  acked_IsAck = (refl, refl);
}

resolve_tracked_example :
    ((resolve_genl_family replay name counting).0 ≡ err bad_seq)
    × ((resolve_nl_mcast_group replay name (103 ∷ []) counting).0 ≡ err bad_seq)
resolve_tracked_example =
    resolve_tracked replay counting name (103 ∷ []) reply 3 none [] refl refl (omega arith)
      request-IsValid request-IsSmall kernel_counting refl
