-- ===== src/Netfilter.antt =====
-- src/netfilter.rs: the messages of the netfilter log. A `SystemTime` is the time since the epoch, as
-- the standard library has it on Unix, with a panic past 2 ^ 63 seconds; a `CString` is its bytes
-- without the 0.
pub mod Order
pub mod Config
pub mod Items
pub mod Absorb
pub mod Packet
use neli.Base.{ℕ, zero, suc, ◌+◌, ◌-◌, ◌*◌, ◌/◌, ◌%◌, ◌^◌, ltb, leb, ◌==◌, ◌&&◌, if◌then◌else◌}
use neli.Base.{Option, none, some, List, [], ◌∷◌, length, take, drop}
use neli.Outcome.{Result, ok, err, panic, out_of_fuel, bind, pure, abort, lift, ◌>>=◌, ◌>>◌}
use neli.Err.{DeError}
use neli.Buffering.{Libc, Buffering}
use neli.Nl.{Nl, WritesBuffer, ReadsBuffer, alignto, pad, take_hint, give_hint}
use neli.Nl.Uint.{u8, u16, u32, u64}
use neli.Nl.Bytes.{vec_u8}
use neli.Nl.Text.{has_nul}
use neli.Consts.{var}
use neli.Consts.Netfilter.{NfLogAttr, nf_log_attr, NfLogCfg, nf_log_cfg, LogCopyMode, log_copy_mode}
use neli.Nlattr
use neli.Nlattr.{Nlattr}
use neli.Nlattr.Build.{get_payload_as}
use neli.Netfilter.Order.{to_be, from_be}

pub record Timestamp : Type 0 where
  pub secs : ℕ
  pub usecs : ℕ

pub record SystemTime : Type 0 where
  pub secs : ℕ
  pub nanos : ℕ

abbrev pub unix_epoch : SystemTime
unix_epoch = record { secs = 0; nanos = 0 }

-- `UNIX_EPOCH + Duration::new(secs, nanos)`
abbrev pub after_epoch : ℕ → ℕ → Result DeError SystemTime
after_epoch secs nanos =
    if ltb (secs + nanos / 10 ^ 9) (2 ^ 63)
    then ok (record { secs = secs + nanos / 10 ^ 9; nanos = nanos % 10 ^ 9 })
    else panic

-- `Into<SystemTime>`: the product is a `u64`, of which `as u32` keeps the low half.
unfoldable pub system_time : Timestamp → Result DeError SystemTime
system_time self =
    if ltb (self.usecs * 1000) (2 ^ 64)
    then after_epoch self.secs (self.usecs * 1000 % 2 ^ 32)
    else panic

module _ ⦃c : Libc⦄ ⦃b : Buffering⦄ where
  unfoldable pub serialize_timestamp : Timestamp → WritesBuffer Unit
  serialize_timestamp self = do
    u64.serialize (to_be 8 self.secs)
    u64.serialize (to_be 8 self.usecs)
    pure tt

  unfoldable pub deserialize_timestamp : ReadsBuffer Timestamp
  deserialize_timestamp = do
    secs ← u64.deserialize
    usecs ← u64.deserialize
    let self : Timestamp = record { secs = from_be 8 secs; usecs = from_be 8 usecs }
    pure self

  abbrev pub timestamp : Nl Timestamp
  timestamp = record {
    serialize = serialize_timestamp;
    deserialize = deserialize_timestamp;
    size = λ _. 16;
    asize = λ _. alignto 16;
  }

pub record LogPacket : Type 0 where
  pub hw_protocol : ℕ
  pub hook : ℕ
  pub mark : ℕ
  pub timestamp : SystemTime
  pub hwaddr : List ℕ
  pub payload : List ℕ
  pub prefix : List ℕ
  pub ifindex_in : Option ℕ
  pub ifindex_out : Option ℕ
  pub ifindex_physin : Option ℕ
  pub ifindex_physout : Option ℕ
  pub uid : Option ℕ
  pub gid : Option ℕ
  pub attr_len : ℕ

unfoldable pub dummy_instance : LogPacket
dummy_instance = record {
  hw_protocol = 0;
  hook = 0;
  mark = 0;
  timestamp = unix_epoch;
  hwaddr = [];
  payload = [];
  prefix = [];
  ifindex_in = none;
  ifindex_out = none;
  ifindex_physin = none;
  ifindex_physout = none;
  uid = none;
  gid = none;
  attr_len = 0;
}

-- `bytes.retain(|b| *b != 0)`
unfoldable pub retain_nonzero : List ℕ → List ℕ
retain_nonzero [] = []
retain_nonzero (x ∷ xs) = if x == 0 then retain_nonzero xs else x ∷ retain_nonzero xs

-- `CString::new(bytes).expect(…)`
abbrev pub expect_c_string : List ℕ → Result DeError (List ℕ)
expect_c_string bytes = if has_nul bytes then panic else ok bytes

-- `hwaddr.drain(..4)` and `truncate(len)`
abbrev pub after_length : List ℕ → ℕ → Result DeError (List ℕ)
after_length bytes len = if leb 4 (length bytes) then ok (take len (drop 4 bytes)) else panic

module _ ⦃c : Libc⦄ ⦃b : Buffering⦄ where
  -- `u32::from_be(attr.get_payload_as()?)`
  abbrev pub index_of : Nlattr NfLogAttr (List ℕ) → Result DeError ℕ
  index_of attr = bind (get_payload_as (var nf_log_attr) u32 attr) λ n. ok (from_be 4 n)

  abbrev pub hwaddr_of : List ℕ → Result DeError (List ℕ)
  hwaddr_of bytes =
      bind (u16.deserialize (b.new_read bytes)).0 λ len. after_length bytes (from_be 2 len)

  -- One attribute of the loop.
  unfoldable pub absorb :
      LogPacket → NfLogAttr → Nlattr NfLogAttr (List ℕ) → Result DeError LogPacket
  absorb result NfLogAttr.mark attr =
      bind (get_payload_as (var nf_log_attr) u16 attr) λ n. ok (record result { mark = n })
  absorb result NfLogAttr.timestamp attr =
      bind (get_payload_as (var nf_log_attr) timestamp attr)
        λ t. bind (system_time t) λ at. ok (record result { timestamp = at })
  absorb result NfLogAttr.hwaddr attr =
      bind (hwaddr_of attr.payload) λ hwaddr. ok (record result { hwaddr = hwaddr })
  absorb result NfLogAttr.payload attr = ok (record result { payload = attr.payload })
  absorb result NfLogAttr.prefix attr =
      bind (expect_c_string (retain_nonzero attr.payload)) λ s. ok (record result { prefix = s })
  absorb result NfLogAttr.ifindex_indev attr =
      bind (index_of attr) λ n. ok (record result { ifindex_in = some n })
  absorb result NfLogAttr.ifindex_outdev attr =
      bind (index_of attr) λ n. ok (record result { ifindex_out = some n })
  absorb result NfLogAttr.ifindex_phyindev attr =
      bind (index_of attr) λ n. ok (record result { ifindex_physin = some n })
  absorb result NfLogAttr.ifindex_phyoutdev attr =
      bind (index_of attr) λ n. ok (record result { ifindex_physout = some n })
  absorb result NfLogAttr.uid attr = bind (index_of attr) λ n. ok (record result { uid = some n })
  absorb result NfLogAttr.gid attr = bind (index_of attr) λ n. ok (record result { gid = some n })
  absorb result _ attr = ok result

  unfoldable pub absorb_all :
      LogPacket → List (Nlattr NfLogAttr (List ℕ)) → Result DeError LogPacket
  unfolding absorb
  absorb_all result [] = ok result
  absorb_all result (attr ∷ attrs) =
      bind (absorb result attr.nla_type attr) λ result'. absorb_all result' attrs

  unfoldable pub serialize_packet : LogPacket → WritesBuffer Unit
  serialize_packet self = abort

  -- `take_size_hint().map(|h| h.saturating_sub(4))` with `unwrap_or_default()`
  abbrev pub attrs_hint : Option ℕ → ℕ
  attrs_hint none = 0
  attrs_hint (some h) = h - 4

  unfoldable pub deserialize_packet : ReadsBuffer LogPacket
  unfolding absorb_all dummy_instance
  deserialize_packet = do
    hint ← take_hint
    hw_protocol ← u16.deserialize
    hook ← u8.deserialize
    u8.deserialize
    give_hint (attrs_hint hint)
    attrs ← Nlattr.deserialize_all (var nf_log_attr) vec_u8
    let result : LogPacket = record dummy_instance {
      hw_protocol = from_be 2 hw_protocol;
      hook = hook;
      attr_len = Nlattr.asize_all (var nf_log_attr) vec_u8 attrs;
    }
    lift (absorb_all result attrs)

  abbrev pub log_packet : Nl LogPacket
  log_packet = record {
    serialize = serialize_packet;
    deserialize = deserialize_packet;
    size = λ self. 4 + self.attr_len;
    asize = λ self. alignto (4 + self.attr_len);
  }

pub record LogConfigReq : Type 0 where
  pub family : ℕ
  pub group : ℕ
  pub attrs : List (Nlattr NfLogCfg (List ℕ))

-- `LogConfigReq::new`; a `family` below 0 is a bit pattern from 2 ^ 31.
unfoldable pub new : ℕ → ℕ → List (Nlattr NfLogCfg (List ℕ)) → Result DeError LogConfigReq
new family group cfg =
    if ltb family (2 ^ 31) && leb family 255
    then ok (record { family = family; group = group; attrs = cfg })
    else panic

pub record LogConfigMode : Type 0 where
  pub copy_range : ℕ
  pub copy_mode : LogCopyMode

module _ ⦃c : Libc⦄ ⦃b : Buffering⦄ where
  unfoldable pub request_size : LogConfigReq → ℕ
  request_size self =
      u8.size self.family
      + u8.size 0
      + u16.size self.group
      + Nlattr.asize_all (var nf_log_cfg) vec_u8 self.attrs

  unfoldable pub serialize_request : LogConfigReq → WritesBuffer Unit
  serialize_request self = do
    u8.serialize self.family
    u8.serialize 0
    u16.serialize (to_be 2 self.group)
    Nlattr.serialize_all (var nf_log_cfg) vec_u8 self.attrs
    pad (request_size self) (alignto (request_size self))
    pure tt

  unfoldable pub deserialize_request : ReadsBuffer LogConfigReq
  deserialize_request = abort

  abbrev pub log_config_req : Nl LogConfigReq
  log_config_req = record {
    serialize = serialize_request;
    deserialize = deserialize_request;
    size = request_size;
    asize = λ self. alignto (request_size self);
  }

  unfoldable pub serialize_mode : LogConfigMode → WritesBuffer Unit
  serialize_mode self = do
    u32.serialize (to_be 4 self.copy_range)
    (var log_copy_mode).serialize self.copy_mode
    u8.serialize 0
    pure tt

  unfoldable pub deserialize_mode : ReadsBuffer LogConfigMode
  deserialize_mode = do
    copy_range ← u32.deserialize
    copy_mode ← (var log_copy_mode).deserialize
    u8.deserialize
    let self : LogConfigMode = record { copy_range = from_be 4 copy_range; copy_mode = copy_mode }
    pure self

  abbrev pub log_config_mode : Nl LogConfigMode
  log_config_mode = record {
    serialize = serialize_mode;
    deserialize = deserialize_mode;
    size = λ self. u32.size self.copy_range + (var log_copy_mode).size self.copy_mode + u8.size 0;
    asize = λ self.
        alignto (u32.size self.copy_range + (var log_copy_mode).size self.copy_mode + u8.size 0);
  }
