-- ===== src/Tests/Netfilter.antt =====
-- The theorems on the netfilter log at concrete inputs.
use neli.Base.{◌≡◌, refl, arith, false, some, none, List, [], ◌∷◌, length}
use neli.Buffering.{All}
use neli.Nl.Runs.{Reads}
use neli.Nl.Laws.{vec_laws}
use neli.Nl.Text.{has_nul}
use neli.Consts.{first_arm, from_value}
use neli.Consts.Laws.{var_laws}
use neli.Consts.Netfilter.{NfLogAttr, nf_log_attr, LogCopyMode, log_copy_mode}
use neli.Nlattr
use neli.Nlattr.RoundTrip.{IsValid}
use neli.Nlattr.Lists.{after_all}
use neli.Netfilter.{LogConfigMode, LogPacket, deserialize_packet, log_packet}
use neli.Netfilter.Order.{big_bytes}
use neli.Netfilter.Items.{Item, attrs_of}
use neli.Netfilter.Packet.{packet_bytes, started, log_packet-Reads}
use neli.Tests.Little.{little, linux}

abbrev mode : LogConfigMode
mode = record { copy_range = 50; copy_mode = LogCopyMode.packet }

packet_fits : from_value log_copy_mode 2 ≡ LogCopyMode.packet
unfolding from_value first_arm
packet_fits = refl

-- A prefix "in:", a payload of two bytes, and the user 1000.
abbrev logged : List Item
logged = Item.prefix (105 ∷ 110 ∷ 58 ∷ []) ∷ Item.payload (69 ∷ 0 ∷ []) ∷ Item.uid 1000 ∷ []

prefix_fits : from_value nf_log_attr 10 ≡ NfLogAttr.prefix
unfolding from_value first_arm
prefix_fits = refl

payload_fits : from_value nf_log_attr 9 ≡ NfLogAttr.payload
unfolding from_value first_arm
payload_fits = refl

uid_fits : from_value nf_log_attr 11 ≡ NfLogAttr.uid
unfolding from_value first_arm
uid_fits = refl

no_nul : has_nul (105 ∷ 110 ∷ 58 ∷ []) ≡ false
unfolding has_nul
no_nul = refl

logged-IsValid : All (IsValid (var_laws nf_log_attr) vec_laws) (attrs_of logged)
unfolding Nlattr.size big_bytes
logged-IsValid = (
  record {
    len_is_size = refl;
    len_fits = omega arith;
    type_IsValid = (omega arith, prefix_fits);
    payload_IsValid = tt;
  },
  (
    record {
      len_is_size = refl;
      len_fits = omega arith;
      type_IsValid = (omega arith, payload_fits);
      payload_IsValid = tt;
    },
    (
      record {
        len_is_size = refl;
        len_fits = omega arith;
        type_IsValid = (omega arith, uid_fits);
        payload_IsValid = tt;
      },
      tt,
    ),
  ),
)

-- The protocol of IPv4, at the hook for what comes in.
abbrev packet : LogPacket
packet = record (started 2048 1 (attrs_of logged)) {
  payload = 69 ∷ 0 ∷ [];
  prefix = 105 ∷ 110 ∷ 58 ∷ [];
  uid = some 1000;
}

log_packet-Reads_example :
    Reads deserialize_packet
      (some (log_packet.size packet))
      (packet_bytes 2048 1 0 (attrs_of logged))
      packet
      (after_all (var_laws nf_log_attr) vec_laws none (attrs_of logged))
    × (log_packet.size packet ≡ length (packet_bytes 2048 1 0 (attrs_of logged)))
log_packet-Reads_example =
    log_packet-Reads 2048 1 0 logged (omega arith) (omega arith) (omega arith)
      (no_nul, (tt, (omega arith, tt))) logged-IsValid
