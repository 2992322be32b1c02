-- ===== src/Netfilter/Config.antt =====
-- src/netfilter.rs: what a configuration is on the wire.
use neli.Base.{ℕ, ◌^◌, ◌<◌, ◌≡◌, arith}
use neli.Base.{Option, List, ◌++◌, length, length-append}
use neli.Buffering.{Libc, Buffering, All}
use neli.Nl.Runs.{Writes, Reads, Writes-then, Writes-last, Reads-bind, Reads-last, Reads-pure}
use neli.Nl.Uint.{uint, Writes-uint, Reads-uint, deserialize_uint}
use neli.Nl.Padding.{IsSmall, padding, Writes-pad, length-padding}
use neli.Nl.Laws.{vec_laws}
use neli.Consts.Laws.{var_laws}
use neli.Consts.Netfilter.{log_copy_mode, nf_log_cfg}
use neli.Nlattr.RoundTrip.{IsValid}
use neli.Nlattr.Lists.{bytes_all, length-bytes_all, serialize_all-Writes}
use neli.Netfilter.{
  LogConfigMode, serialize_mode, deserialize_mode, LogConfigReq, serialize_request, request_size,
  log_config_mode, log_config_req,
}
use neli.Netfilter.Order.{to_be, big_bytes, encode-to_be, to_be-lt, from_be-to_be, length-big_bytes}

module _ ⦃c : Libc⦄ ⦃b : Buffering⦄ where
  Writes-big : (w v : ℕ) → Writes ((uint w).serialize (to_be w v)) (big_bytes w v)
  Writes-big w v = rw (encode-to_be w v) at (Writes-uint w (to_be w v))

  pub Reads-big :
      (w v : ℕ) (h : Option ℕ) → Reads (deserialize_uint w) h (big_bytes w v) (to_be w v) h
  Reads-big w v h = rw (encode-to_be w v) at (Reads-uint w (to_be w v) h (to_be-lt w v))

  abbrev pub mode_bytes : LogConfigMode → List ℕ
  mode_bytes self =
      big_bytes 4 self.copy_range ++ ((var_laws log_copy_mode).bytes self.copy_mode ++ b.encode 1 0)

  -- A mode whose range fits 32 bits and whose copy mode is one that is read back is written as the range,
  -- from its high byte to its low one, the copy mode and a 0, `size` bytes; and from them it reads
  -- back, whatever the hint and whatever follows.
  pub log_config_mode_round_trip :
      (self : LogConfigMode) (h : Option ℕ)
      → self.copy_range < 2 ^ 32
      → (var_laws log_copy_mode).IsValid self.copy_mode
      → Writes (serialize_mode self) (mode_bytes self)
        × (length (mode_bytes self) ≡ log_config_mode.size self)
        × Reads deserialize_mode h (mode_bytes self) self h
  unfolding serialize_mode deserialize_mode
  log_config_mode_round_trip self h fits v = (
    Writes-then _ _ (Writes-big 4 self.copy_range) (
        Writes-then _ _ ((var_laws log_copy_mode).writes self.copy_mode)
          (Writes-last _ (Writes-uint 1 0))),
    omega (
      arith,
      length-append (big_bytes 4 self.copy_range)
          ((var_laws log_copy_mode).bytes self.copy_mode ++ b.encode 1 0),
      length-append ((var_laws log_copy_mode).bytes self.copy_mode) (b.encode 1 0),
      length-big_bytes 4 self.copy_range,
      b.length-encode 1 0,
      (var_laws log_copy_mode).length_bytes self.copy_mode,
      (var_laws log_copy_mode).sized self.copy_mode,
    ),
    Reads-bind _ _ (Reads-big 4 self.copy_range h) (
        Reads-bind _ _ ((var_laws log_copy_mode).reads self.copy_mode h v) (
          Reads-last _ _ (Reads-uint 1 0 h (omega arith))
            (rw (from_be-to_be 4 self.copy_range fits) (Reads-pure self)))),
  )

  abbrev pub request_bytes : LogConfigReq → List ℕ
  request_bytes self =
      b.encode 1 self.family
      ++ (b.encode 1 0
          ++ (big_bytes 2 self.group
              ++ (bytes_all (var_laws nf_log_cfg) vec_laws self.attrs
                  ++ padding (request_size self))))

  -- A request with valid attributes, no longer than lengths can be, is written as its family, the
  -- version 0, its group from the high byte to the low one, its attributes and the padding, which are
  -- `asize` bytes.
  pub log_config_req_lem :
      (self : LogConfigReq)
      → All (IsValid (var_laws nf_log_cfg) vec_laws) self.attrs
      → IsSmall (request_size self)
      → Writes (serialize_request self) (request_bytes self)
        × (length (request_bytes self) ≡ log_config_req.asize self)
  unfolding serialize_request request_size
  log_config_req_lem self v small =
      let attrs = bytes_all (var_laws nf_log_cfg) vec_laws self.attrs in
      let pad = padding (request_size self) in
      (
        Writes-then _ _ (Writes-uint 1 self.family) (
            Writes-then _ _ (Writes-uint 1 0) (
              Writes-then _ _ (Writes-big 2 self.group) (
                Writes-then _ _ (serialize_all-Writes (var_laws nf_log_cfg) vec_laws self.attrs v)
                  (Writes-last _ (Writes-pad (request_size self) small))))),
        omega (
          arith,
          length-append (b.encode 1 self.family)
              (b.encode 1 0 ++ (big_bytes 2 self.group ++ (attrs ++ pad))),
          length-append (b.encode 1 0) (big_bytes 2 self.group ++ (attrs ++ pad)),
          length-append (big_bytes 2 self.group) (attrs ++ pad),
          length-append attrs pad,
          b.length-encode 1 self.family,
          b.length-encode 1 0,
          length-big_bytes 2 self.group,
          length-bytes_all (var_laws nf_log_cfg) vec_laws self.attrs v,
          length-padding (request_size self) small,
        ),
      )
