-- ===== src/Netfilter/Packet.antt =====
-- src/netfilter.rs, `LogPacket::deserialize` on a packet of well-formed attributes.
use neli.Base.{ℕ, ◌+◌, ◌-◌, ◌^◌, ◌<◌, ◌≡◌, arith}
use neli.Base.{none, some, List, [], ◌++◌, length, length-append}
use neli.Outcome.{ok}
use neli.Buffering.{Libc, Buffering, All}
use neli.Nl.Runs.{Reads, Reads-bind, Reads-last, Reads-pure, Reads-silent}
use neli.Nl.Uint.{Reads-uint}
use neli.Nl.Bytes.{vec_u8}
use neli.Nl.Laws.{vec_laws}
use neli.Consts.{var}
use neli.Consts.Laws.{var_laws}
use neli.Consts.Netfilter.{NfLogAttr, nf_log_attr}
use neli.Nlattr
use neli.Nlattr.{Nlattr}
use neli.Nlattr.RoundTrip.{IsValid}
use neli.Nlattr.Lists.{bytes_all, after_all, length-bytes_all, deserialize_all-Reads}
use neli.Netfilter.{
  LogPacket, unix_epoch, dummy_instance, absorb_all, deserialize_packet, log_packet,
}
use neli.Netfilter.Config.{Reads-big}
use neli.Netfilter.Order.{big_bytes, from_be-to_be, length-big_bytes}
use neli.Netfilter.Items.{Item, Fits, attrs_of, say_all, attr_len-say_all}
use neli.Netfilter.Absorb.{absorb_all-say_all}

module _ ⦃c : Libc⦄ ⦃b : Buffering⦄ where
  abbrev pub packet_bytes : ℕ → ℕ → ℕ → List (Nlattr NfLogAttr (List ℕ)) → List ℕ
  packet_bytes hw_protocol hook padding attrs =
      big_bytes 2 hw_protocol
      ++ (b.encode 1 hook
          ++ (b.encode 1 padding ++ bytes_all (var_laws nf_log_attr) vec_laws attrs))

  -- A packet with nothing said but its protocol, its hook and the size of its attributes.
  abbrev pub started : ℕ → ℕ → List (Nlattr NfLogAttr (List ℕ)) → LogPacket
  started hw_protocol hook attrs = record {
    hw_protocol = hw_protocol;
    hook = hook;
    mark = 0;
    timestamp = unix_epoch;
    hwaddr = [];
    payload = [];
    prefix = [];
    ifindex_in = none;
    ifindex_out = none;
    ifindex_physin = none;
    ifindex_physout = none;
    uid = none;
    gid = none;
    attr_len = Nlattr.asize_all (var nf_log_attr) vec_u8 attrs;
  }

  length-packet_bytes :
      (hw_protocol hook padding : ℕ) (attrs : List (Nlattr NfLogAttr (List ℕ)))
      → All (IsValid (var_laws nf_log_attr) vec_laws) attrs
      → length (packet_bytes hw_protocol hook padding attrs)
        ≡ 4 + Nlattr.asize_all (var nf_log_attr) vec_u8 attrs
  length-packet_bytes hw_protocol hook padding attrs v =
      let end = bytes_all (var_laws nf_log_attr) vec_laws attrs in
      omega (
        arith,
        length-append (big_bytes 2 hw_protocol) (b.encode 1 hook ++ (b.encode 1 padding ++ end)),
        length-append (b.encode 1 hook) (b.encode 1 padding ++ end),
        length-append (b.encode 1 padding) end,
        length-big_bytes 2 hw_protocol,
        b.length-encode 1 hook,
        b.length-encode 1 padding,
        length-bytes_all (var_laws nf_log_attr) vec_laws attrs v,
      )

  packet-Reads :
      (hw_protocol hook padding : ℕ) (attrs : List (Nlattr NfLogAttr (List ℕ))) (p : LogPacket)
      → hw_protocol < 2 ^ 16
      → hook < 2 ^ 8
      → padding < 2 ^ 8
      → All (IsValid (var_laws nf_log_attr) vec_laws) attrs
      → absorb_all (started hw_protocol hook attrs) attrs ≡ ok p
      → Reads deserialize_packet
          (some (4 + Nlattr.asize_all (var nf_log_attr) vec_u8 attrs))
          (packet_bytes hw_protocol hook padding attrs)
          p
          (after_all (var_laws nf_log_attr) vec_laws none attrs)
  unfolding deserialize_packet dummy_instance
  packet-Reads hw_protocol hook padding attrs p fits_hw fits_hook fits_padding v absorbed =
      let total = Nlattr.asize_all (var nf_log_attr) vec_u8 attrs in
      let h = some (4 + total) in
      let cancel : 4 + total - 4 ≡ total = omega arith in
      Reads-silent _ _ h (λ f r. rw (b.take_size_hint_lem f r h))
        (Reads-bind _ _ (Reads-big 2 hw_protocol none) (
          Reads-bind _ _ (Reads-uint 1 hook none fits_hook) (
            Reads-bind _ _ (Reads-uint 1 padding none fits_padding) (
              Reads-silent _ _ tt {h' = some total}
                (λ f r. rw (b.set_size_hint_lem f r none (4 + total - 4), cancel))
                (Reads-last _ _ (deserialize_all-Reads (var_laws nf_log_attr) vec_laws attrs v)
                  (rw (from_be-to_be 2 hw_protocol fits_hw, absorbed) (Reads-pure p)))))))

  -- The bytes of a packet, its protocol from the high byte to the low one, with well-formed attributes,
  -- which say a mark, a time, an address of hardware, a payload, a prefix, the interfaces and the user
  -- and the group, or something that a packet has no field for: with the number of the bytes as the
  -- hint they read as the packet with that protocol and hook and what the attributes say, the later one
  -- where two say the same, and none or nothing where no attribute says it; whatever follows. Its `size`
  -- is that number. Of a mark two bytes are read, in native order; the other integers are sent from the
  -- high byte to the low one. The numbers fit, a time is below 2 ^ 63 seconds with less than a million
  -- microseconds, and a prefix is ended by its only 0.
  pub log_packet-Reads :
      (hw_protocol hook padding : ℕ) (items : List Item)
      → hw_protocol < 2 ^ 16
      → hook < 2 ^ 8
      → padding < 2 ^ 8
      → All Fits items
      → All (IsValid (var_laws nf_log_attr) vec_laws) (attrs_of items)
      → let packet = say_all items (started hw_protocol hook (attrs_of items)) in
        Reads deserialize_packet
          (some (log_packet.size packet))
          (packet_bytes hw_protocol hook padding (attrs_of items))
          packet
          (after_all (var_laws nf_log_attr) vec_laws none (attrs_of items))
        × (log_packet.size packet ≡ length (packet_bytes hw_protocol hook padding (attrs_of items)))
  log_packet-Reads hw_protocol hook padding items fits_hw fits_hook fits_padding fits v =
      let attrs = attrs_of items in
      let total = Nlattr.asize_all (var nf_log_attr) vec_u8 attrs in
      let packet = say_all items (started hw_protocol hook attrs) in
      let len : packet.attr_len ≡ total = attr_len-say_all (started hw_protocol hook attrs) items in
      let hinted : 4 + total ≡ 4 + packet.attr_len = omega (arith, len) in
      let reads =
        packet-Reads hw_protocol hook padding attrs packet fits_hw fits_hook fits_padding v
          (absorb_all-say_all (started hw_protocol hook attrs) items fits) in
      (rw hinted at reads, omega (arith, len, length-packet_bytes hw_protocol hook padding attrs v))
