-- ===== src/Rtnl/Route/RoundTrip.antt =====
-- What a well-formed route message is on the wire, and that it reads back.
use neli.Base.{ℕ, ◌+◌, ◌^◌, ◌<◌, ◌≡◌, refl, arith}
use neli.Base.{none, some, List, ◌++◌, length, length-append}
use neli.Buffering.{Libc, Buffering}
use neli.Nl.Runs.{
  Writes, Reads, Writes-then, Writes-last, Reads-bind, Reads-last, Reads-pure, Reads-silent,
}
use neli.Nl.Uint.{Writes-uint, Reads-uint}
use neli.Nl.Padding.{IsSmall, sub_or_panic_left}
use neli.Nl.Laws.{Payload}
use neli.Consts.Laws.{IsEncodable, var_laws, Writes-var, Reads-var}
use neli.Consts.Rtnl.Families.{rt_addr_family, rt_addr_family_into}
use neli.Consts.Rtnl.Routes.{
  rtn, rtn_into, rtprot, rtprot_into, rt_scope, rt_scope_into, rt_table, rt_table_into,
}
use neli.Consts.Rtnl.Routes.{rtm_f, rtm_f_into}
use neli.Consts.Rtnl.Attrs.{rta}
use neli.Flags.{fold_flags}
use neli.Flags.Laws.{AreFlags, fold_flags_fits, flags_from-fold_flags}
use neli.Rtnl.Rtattr.Lists.{AreValid, sizes, bytes_items, length-bytes_items}
use neli.Rtnl.Rtattr.Lists.{deserialize_all-Reads, serialize_all-Writes, asize_all_lem}
use neli.Rtnl.Route
use neli.Rtnl.Route.{Rtmsg, rtmsg}

module _ ⦃c : Libc⦄ ⦃b : Buffering⦄ where
  pub record IsValid (self : Rtmsg) : Type 0 where
    pub family_IsEncodable : IsEncodable rt_addr_family self.rtm_family
    pub dst_len_fits : self.rtm_dst_len < 2 ^ 8
    pub src_len_fits : self.rtm_src_len < 2 ^ 8
    pub tos_fits : self.rtm_tos < 2 ^ 8
    pub table_IsEncodable : IsEncodable rt_table self.rtm_table
    pub protocol_IsEncodable : IsEncodable rtprot self.rtm_protocol
    pub scope_IsEncodable : IsEncodable rt_scope self.rtm_scope
    pub type_IsEncodable : IsEncodable rtn self.rtm_type
    pub flags_AreFlags : AreFlags rtm_f 32 self.rtm_flags
    pub attrs_AreValid : AreValid (var_laws rta) self.rtattrs.items
    pub attrs_IsSmall : IsSmall (sizes (var_laws rta) self.rtattrs.items)

  pub bytes : Rtmsg → List ℕ
  bytes self =
      b.encode 1 (rt_addr_family_into self.rtm_family)
      ++ (b.encode 1 self.rtm_dst_len
          ++ (b.encode 1 self.rtm_src_len
              ++ (b.encode 1 self.rtm_tos
                  ++ (b.encode 1 (rt_table_into self.rtm_table)
                      ++ (b.encode 1 (rtprot_into self.rtm_protocol)
                          ++ (b.encode 1 (rt_scope_into self.rtm_scope)
                              ++ (b.encode 1 (rtn_into self.rtm_type)
                                  ++ (b.encode 4 (fold_flags rtm_f_into 0 self.rtm_flags)
                                      ++ bytes_items (var_laws rta) self.rtattrs.items))))))))

  pub size_lem :
      (self : Rtmsg) → IsValid self → Route.size self ≡ 12 + sizes (var_laws rta) self.rtattrs.items
  unfolding Route.size
  size_lem self v =
      rw (asize_all_lem (var_laws rta) self.rtattrs v.attrs_AreValid v.attrs_IsSmall) refl

  pub serialize-Writes : (self : Rtmsg) → IsValid self → Writes (Route.serialize self) (bytes self)
  unfolding Route.serialize bytes
  serialize-Writes self v =
      (Writes-then _ _ (Writes-var rt_addr_family self.rtm_family) (
        Writes-then _ _ (Writes-uint 1 self.rtm_dst_len) (
          Writes-then _ _ (Writes-uint 1 self.rtm_src_len) (
            Writes-then _ _ (Writes-uint 1 self.rtm_tos) (
              Writes-then _ _ (Writes-var rt_table self.rtm_table) (
                Writes-then _ _ (Writes-var rtprot self.rtm_protocol) (
                  Writes-then _ _ (Writes-var rt_scope self.rtm_scope) (
                    Writes-then _ _ (Writes-var rtn self.rtm_type) (
                      Writes-then _ _ (Writes-uint 4 (fold_flags rtm_f_into 0 self.rtm_flags)) (
                        Writes-last _ (
                          serialize_all-Writes (var_laws rta) self.rtattrs
                            v.attrs_AreValid)))))))))))

  -- With its size as the hint, as a header gives it, a well-formed route reads back.
  pub deserialize-Reads :
      (self : Rtmsg)
      → IsValid self
      → Reads Route.deserialize (some (Route.size self)) (bytes self) self none
  unfolding Route.deserialize bytes
  deserialize-Reads self v =
      let h = some (Route.size self) in
      let items = sizes (var_laws rta) self.rtattrs.items in
      (Reads-silent _ _ h (λ f r. rw (b.take_size_hint_lem f r h))
        (Reads-silent _ _ (Route.size self) (λ f r. refl)
          (Reads-bind _ _ (Reads-var rt_addr_family self.rtm_family none v.family_IsEncodable) (
            Reads-bind _ _ (Reads-uint 1 self.rtm_dst_len none v.dst_len_fits) (
              Reads-bind _ _ (Reads-uint 1 self.rtm_src_len none v.src_len_fits) (
                Reads-bind _ _ (Reads-uint 1 self.rtm_tos none v.tos_fits) (
                  Reads-bind _ _ (Reads-var rt_table self.rtm_table none v.table_IsEncodable) (
                    Reads-bind _ _ (Reads-var rtprot self.rtm_protocol none v.protocol_IsEncodable)
                      (Reads-bind _ _ (Reads-var rt_scope self.rtm_scope none v.scope_IsEncodable) (
                        Reads-bind _ _ (Reads-var rtn self.rtm_type none v.type_IsEncodable) (
                          Reads-bind _ _ (Reads-uint 4 word none flags_fit) (
                            Reads-silent _ _ (11 + items)
                              (λ f r. sub_or_panic_left _ _ _ (omega (arith, size_lem self v)) _)
                              (Reads-silent _ _ (10 + items)
                                (λ f r. sub_or_panic_left _ _ _ (omega (arith, size_lem self v)) _)
                                (Reads-silent _ _ (9 + items)
                                  (λ f r.
                                    sub_or_panic_left _ _ _ (omega (arith, size_lem self v)) _)
                                  (Reads-silent _ _ (8 + items)
                                    (λ f r.
                                      sub_or_panic_left _ _ _ (omega (arith, size_lem self v)) _)
                                    (Reads-silent _ _ (7 + items)
                                      (λ f r.
                                        sub_or_panic_left _ _ _ (omega (arith, size_lem self v)) _)
                                      (Reads-silent _ _ (6 + items)
                                        (λ f r.
                                          sub_or_panic_left _ _ _ (omega (arith, size_lem self v))
                                            _)
                                        (Reads-silent _ _ (5 + items)
                                          (λ f r.
                                            sub_or_panic_left _ _ _ (omega (arith, size_lem self v))
                                              _)
                                          (Reads-silent _ _ (4 + items)
                                            (λ f r.
                                              sub_or_panic_left _ _ _
                                                (omega (arith, size_lem self v)) _)
                                            (Reads-silent _ _ (items)
                                              (λ f r.
                                                sub_or_panic_left _ _ _
                                                  (omega (arith, size_lem self v)) _)
                                              (Reads-silent _ _ tt
                                                (λ f r. rw (b.set_size_hint_lem f r none items))
                                                (Reads-last _ _
                                                  (deserialize_all-Reads (var_laws rta)
                                                    self.rtattrs.items v.attrs_AreValid)
                                                  (rw
                                                    (flags_from-fold_flags rtm_f (λ _. refl) 32
                                                      self.rtm_flags v.flags_AreFlags)
                                                    (Reads-pure self))))))))))))))))))))))))
    where
      word : ℕ
      word = fold_flags rtm_f_into 0 self.rtm_flags

      flags_fit : word < 256 ^ 4
      flags_fit = fold_flags_fits rtm_f (λ _. refl) 32 self.rtm_flags v.flags_AreFlags

  pub length-bytes : (self : Rtmsg) → IsValid self → length (bytes self) ≡ Route.size self
  unfolding bytes
  length-bytes self v =
      let after_flags = bytes_items (var_laws rta) self.rtattrs.items in
      let after_type = b.encode 4 (fold_flags rtm_f_into 0 self.rtm_flags) ++ after_flags in
      let after_scope = b.encode 1 (rtn_into self.rtm_type) ++ after_type in
      let after_protocol = b.encode 1 (rt_scope_into self.rtm_scope) ++ after_scope in
      let after_table = b.encode 1 (rtprot_into self.rtm_protocol) ++ after_protocol in
      let after_tos = b.encode 1 (rt_table_into self.rtm_table) ++ after_table in
      let after_src_len = b.encode 1 self.rtm_tos ++ after_tos in
      let after_dst_len = b.encode 1 self.rtm_src_len ++ after_src_len in
      let after_family = b.encode 1 self.rtm_dst_len ++ after_dst_len in
      omega (
        arith,
        length-append (b.encode 1 (rt_addr_family_into self.rtm_family)) after_family,
        b.length-encode 1 (rt_addr_family_into self.rtm_family),
        length-append (b.encode 1 self.rtm_dst_len) after_dst_len,
        b.length-encode 1 self.rtm_dst_len,
        length-append (b.encode 1 self.rtm_src_len) after_src_len,
        b.length-encode 1 self.rtm_src_len,
        length-append (b.encode 1 self.rtm_tos) after_tos,
        b.length-encode 1 self.rtm_tos,
        length-append (b.encode 1 (rt_table_into self.rtm_table)) after_table,
        b.length-encode 1 (rt_table_into self.rtm_table),
        length-append (b.encode 1 (rtprot_into self.rtm_protocol)) after_protocol,
        b.length-encode 1 (rtprot_into self.rtm_protocol),
        length-append (b.encode 1 (rt_scope_into self.rtm_scope)) after_scope,
        b.length-encode 1 (rt_scope_into self.rtm_scope),
        length-append (b.encode 1 (rtn_into self.rtm_type)) after_type,
        b.length-encode 1 (rtn_into self.rtm_type),
        length-append (b.encode 4 (fold_flags rtm_f_into 0 self.rtm_flags)) after_flags,
        b.length-encode 4 (fold_flags rtm_f_into 0 self.rtm_flags),
        length-bytes_items (var_laws rta) self.rtattrs.items v.attrs_AreValid,
        size_lem self v,
      )

  -- A route message whose constants are encodable, whose numbers fit, whose flags are those of a 32-bit
  -- word in order and whose attributes are well formed is written as the bytes of its fields and of
  -- its attributes, `size` in number; and with that number as the hint it reads back from them,
  -- whatever follows.
  pub rtmsg_round_trip :
      (self : Rtmsg)
      → IsValid self
      → Writes (Route.serialize self) (bytes self)
        × (length (bytes self) ≡ Route.size self)
        × Reads Route.deserialize (some (Route.size self)) (bytes self) self none
  rtmsg_round_trip self v = (serialize-Writes self v, length-bytes self v, deserialize-Reads self v)

  abbrev pub rtmsg_laws : Payload rtmsg
  rtmsg_laws = record {
    IsValid = IsValid;
    bytes = bytes;
    after = λ _. none;
    length_bytes = length-bytes;
    writes = serialize-Writes;
    reads = deserialize-Reads;
  }
