-- ===== src/Tests/Messages.antt =====
-- The theorems on messages at concrete inputs.
use neli.Base.{ℕ, ◌≡◌, refl, sym, arith, none, some, List, [], ◌∷◌, ◌++◌, length}
use neli.Nl.Runs.{Writes, Reads, Fails, panicking}
use neli.Nl.Uint.{u16}
use neli.Nl.{alignto}
use neli.Nl.Laws.{uint_laws, vec_laws}
use neli.Consts.{first_arm, from_value, var}
use neli.Consts.Laws.{var_laws}
use neli.Consts.Messages.{GenlId, genl_id, ctrl, NlmF, nlm_f, request, ack}
use neli.Consts.Genl.{CtrlCmd, ctrl_cmd, getfamily}
use neli.Flags.{flags_from}
use neli.Flags.Laws.{AreFlags}
use neli.Nlattr
use neli.Nlattr.{Nlattr}
use neli.Nlattr.RoundTrip.{IsValid as IsValidAttr}
use neli.Nlmsghdr
use neli.Nlmsghdr.{Nlmsghdr, NlEmpty, nl_empty, empty, short_packet}
use neli.Nlmsghdr.RoundTrip as Header
use neli.Nlmsghdr.RoundTrip.{nlmsghdr_round_trip, new-IsValid}
use neli.Nl.Stops.{Stops, uint_any}
use neli.Consts.Laws.{var_any}
use neli.Nlmsghdr.AnyBytes.{IsMessage, nlmsghdr-IsMessage}
use neli.Genlmsghdr.AnyBytes.{IsPayload, genlmsghdr-IsPayload, genl_any}
use neli.Genlmsghdr
use neli.Genlmsghdr.{Genlmsghdr, genlmsghdr}
use neli.Genlmsghdr.RoundTrip as Generic
use neli.Genlmsghdr.RoundTrip.{genlmsghdr_round_trip, genl_laws}
use neli.Genlmsghdr.Errors.{genlmsghdr_short}
use neli.Nlmsgerr
use neli.Nlmsgerr.{Nlmsgerr}
use neli.Nlmsgerr.RoundTrip as Reported
use neli.Nlmsgerr.RoundTrip.{nlmsgerr_round_trip}
use neli.Tests.Little.{little, linux, encode}

-- The name of a family, and the request for its description.
abbrev name : Nlattr ℕ (List ℕ)
name = record { nla_len = 9; nla_type = 2; payload = 110 ∷ 108 ∷ 56 ∷ 48 ∷ 0 ∷ [] }

name-IsValid : IsValidAttr (uint_laws 2) vec_laws name
unfolding Nlattr.size
name-IsValid = omega arith

abbrev family : Genlmsghdr CtrlCmd ℕ
family = record { cmd = getfamily; version = 2; reserved = 0; attrs = name ∷ [] }

family_size : Genlmsghdr.size (var ctrl_cmd) u16 family ≡ 16
unfolding Nlattr.asize_all Nlattr.size alignto Genlmsghdr.size
family_size = refl

getfamily_fits : from_value ctrl_cmd 3 ≡ getfamily
unfolding from_value first_arm
getfamily_fits = refl

abbrev family-IsValid : Generic.IsValid (var_laws ctrl_cmd) (uint_laws 2) family
family-IsValid = record {
  cmd_IsValid = (omega arith, getfamily_fits);
  version_fits = omega arith;
  reserved_fits = omega arith;
  attrs_IsValid = (name-IsValid, tt);
  IsSmall_size = omega (arith, family_size);
}

genlmsghdr_round_trip_example :
    Writes
      (Genlmsghdr.serialize (var ctrl_cmd) u16 family)
      (Generic.bytes (var_laws ctrl_cmd) (uint_laws 2) family)
    × (length (Generic.bytes (var_laws ctrl_cmd) (uint_laws 2) family)
        ≡ Genlmsghdr.size (var ctrl_cmd) u16 family)
    × Reads
        (Genlmsghdr.deserialize (var ctrl_cmd) u16)
        (some (Genlmsghdr.size (var ctrl_cmd) u16 family))
        (Generic.bytes (var_laws ctrl_cmd) (uint_laws 2) family)
        family
        none
genlmsghdr_round_trip_example =
    genlmsghdr_round_trip (var_laws ctrl_cmd) (uint_laws 2) family family-IsValid

genlmsghdr_short_example :
    Fails
      (Genlmsghdr.deserialize (var ctrl_cmd) u16)
      (some 3)
      (encode 1 3 ++ (encode 1 2 ++ (encode 2 0 ++ [])))
      panicking
genlmsghdr_short_example =
    genlmsghdr_short u16 (var_laws ctrl_cmd) getfamily 2 0 (some 3) (omega arith)
      (omega arith, getfamily_fits) (omega arith) (omega arith)

-- `NLM_F_REQUEST | NLM_F_ACK`
abbrev flags : List NlmF
flags = request ∷ ack ∷ []

flags_split : flags ≡ flags_from nlm_f 16 0 5
unfolding flags_from from_value first_arm
flags_split = refl

abbrev flags-AreFlags : AreFlags nlm_f 16 flags
flags-AreFlags = record { word = 5; word_fits = omega arith; split = flags_split }

ctrl_fits : from_value genl_id 16 ≡ ctrl
unfolding from_value first_arm
ctrl_fits = refl

abbrev payload : Genlmsghdr CtrlCmd ℕ
payload = family

new-IsValid_example :
    Header.IsValid (var_laws genl_id) (genl_laws (var_laws ctrl_cmd) (uint_laws 2)) (
      Nlmsghdr.new
        (var genl_id)
        (genlmsghdr (var ctrl_cmd) u16)
        none
        ctrl
        flags
        none
        (some 7)
        payload)
new-IsValid_example =
    new-IsValid (var_laws genl_id) (genl_laws (var_laws ctrl_cmd) (uint_laws 2)) ctrl flags none
      (some 7) payload (omega arith, ctrl_fits) flags-AreFlags (omega arith) (omega arith)
      family-IsValid (omega (arith, family_size))

-- The request as a message, of which `new` makes the length.
abbrev message : Nlmsghdr GenlId (Genlmsghdr CtrlCmd ℕ)
message = record {
  nl_len = 32;
  nl_type = ctrl;
  nl_flags = flags;
  nl_seq = 1;
  nl_pid = 7;
  nl_payload = family;
}

message_size : Nlmsghdr.size (var genl_id) (genlmsghdr (var ctrl_cmd) u16) message ≡ 32
unfolding Nlattr.asize_all Nlattr.size alignto Genlmsghdr.size Nlmsghdr.size
message_size = refl

abbrev message-IsValid :
    Header.IsValid (var_laws genl_id) (genl_laws (var_laws ctrl_cmd) (uint_laws 2)) message
message-IsValid = record {
  len_is_size = sym message_size;
  len_fits = omega arith;
  type_IsValid = (omega arith, ctrl_fits);
  flags_AreFlags = flags-AreFlags;
  seq_fits = omega arith;
  pid_fits = omega arith;
  payload_IsValid = family-IsValid;
}

abbrev message_bytes : List ℕ
message_bytes =
    Header.bytes (var_laws genl_id) (genl_laws (var_laws ctrl_cmd) (uint_laws 2)) message

nlmsghdr_round_trip_example :
    Writes (Nlmsghdr.serialize (var genl_id) (genlmsghdr (var ctrl_cmd) u16) message) message_bytes
    × (length message_bytes ≡ Nlmsghdr.asize (var genl_id) (genlmsghdr (var ctrl_cmd) u16) message)
    × Reads
        (Nlmsghdr.deserialize (var genl_id) (genlmsghdr (var ctrl_cmd) u16))
        none
        message_bytes
        message
        none
nlmsghdr_round_trip_example =
    nlmsghdr_round_trip (var_laws genl_id) (genl_laws (var_laws ctrl_cmd) (uint_laws 2)) message
      none message-IsValid

-- An acknowledgement of the request.
abbrev acked : Nlmsgerr ℕ
acked = record {
  error = 0;
  nlmsg = record {
    nl_len = 32;
    nl_type = 16;
    nl_flags = flags;
    nl_seq = 1;
    nl_pid = 7;
    nl_payload = nl_empty;
  };
}

acked-IsValid : Reported.IsValid (uint_laws 2) acked
acked-IsValid = record {
  error_fits = omega arith;
  nlmsg_IsHeader = record {
    len_covers = omega arith;
    len_fits = omega arith;
    type_IsValid = omega arith;
    flags_AreFlags = flags-AreFlags;
    seq_fits = omega arith;
    pid_fits = omega arith;
  };
}

nlmsgerr_round_trip_example :
    Writes (Nlmsgerr.serialize u16 acked) (Reported.bytes (uint_laws 2) acked)
    × (length (Reported.bytes (uint_laws 2) acked) ≡ Nlmsgerr.size u16 acked)
    × Reads (Nlmsgerr.deserialize u16) none (Reported.bytes (uint_laws 2) acked) acked (some 16)
nlmsgerr_round_trip_example = nlmsgerr_round_trip (uint_laws 2) acked none acked-IsValid

genlmsghdr-IsPayload_example :
    Stops Unit (Genlmsghdr.deserialize (var ctrl_cmd) u16) (some 16) 20 (λ self h.
      IsPayload {kl = var_laws ctrl_cmd} {tl = uint_laws 2}
        (var_any ctrl_cmd (λ _. refl))
        (uint_any 2)
        16
        20
        self)
genlmsghdr-IsPayload_example =
    genlmsghdr-IsPayload (var_any ctrl_cmd (λ _. refl)) (uint_any 2) 16 20 (omega arith)

-- A message of the controller, whose payload may panic.
nlmsghdr-IsMessage_example :
    Stops Unit
      (Nlmsghdr.deserialize (var genl_id) (genlmsghdr (var ctrl_cmd) u16))
      none
      40
      (λ self h.
        IsMessage
          (var_any genl_id (λ _. refl))
          (genl_any (var_any ctrl_cmd (λ _. refl)) (uint_any 2))
          40
          self)
nlmsghdr-IsMessage_example =
    nlmsghdr-IsMessage (var_any genl_id (λ _. refl))
      (genl_any (var_any ctrl_cmd (λ _. refl)) (uint_any 2)) none 40
