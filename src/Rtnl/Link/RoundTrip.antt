-- ===== src/Rtnl/Link/RoundTrip.antt =====
-- What a well-formed interface message is on the wire, and that it reads back.
use neli.Base.{ℕ, ◌+◌, ◌-◌, ◌^◌, ◌<◌, ◌≡◌, refl, arith, le→leb}
use neli.Base.{none, some, List, ◌++◌, length, length-append}
use neli.Base.Decimal.{decimal, ◌<>◌}
use neli.Outcome.{ok, checked_sub, ok_or}
use neli.Err.{de_error}
use neli.Buffering.{Libc, Buffering}
use neli.Nl.Runs.{
  Writes, Reads, Writes-then, Writes-last, Reads-bind, Reads-last, Reads-pure, Reads-silent,
}
use neli.Nl.Uint.{Writes-uint, Reads-uint}
use neli.Nl.Padding.{IsSmall}
use neli.Nl.Laws.{Payload}
use neli.Consts.Laws.{IsEncodable, var_laws, Writes-var, Reads-var}
use neli.Consts.Rtnl.Families.{rt_addr_family, rt_addr_family_into}
use neli.Consts.Rtnl.Interfaces.{arphrd, arphrd_into, iff, iff_into}
use neli.Consts.Rtnl.Links.{ifla}
use neli.Flags.{fold_flags}
use neli.Flags.Laws.{AreFlags, fold_flags_fits, flags_from-fold_flags}
use neli.Rtnl.Rtattr.Lists.{AreValid, sizes, bytes_items, length-bytes_items}
use neli.Rtnl.Rtattr.Lists.{deserialize_all-Reads, serialize_all-Writes, asize_all_lem}
use neli.Rtnl.Link
use neli.Rtnl.Link.{Ifinfomsg, ifinfomsg}

module _ ⦃c : Libc⦄ ⦃b : Buffering⦄ where
  pub record IsValid (self : Ifinfomsg) : Type 0 where
    pub family_IsEncodable : IsEncodable rt_addr_family self.ifi_family
    pub type_IsEncodable : IsEncodable arphrd self.ifi_type
    pub index_fits : self.ifi_index < 2 ^ 32
    pub flags_AreFlags : AreFlags iff 32 self.ifi_flags
    pub change_IsEncodable : IsEncodable iff self.ifi_change
    pub attrs_AreValid : AreValid (var_laws ifla) self.rtattrs.items
    pub attrs_IsSmall : IsSmall (sizes (var_laws ifla) self.rtattrs.items)

  pub bytes : Ifinfomsg → List ℕ
  bytes self =
      b.encode 1 (rt_addr_family_into self.ifi_family)
      ++ (b.encode 1 0
          ++ (b.encode 2 (arphrd_into self.ifi_type)
              ++ (b.encode 4 self.ifi_index
                  ++ (b.encode 4 (fold_flags iff_into 0 self.ifi_flags)
                      ++ (b.encode 4 (iff_into self.ifi_change)
                          ++ bytes_items (var_laws ifla) self.rtattrs.items)))))

  pub size_lem :
      (self : Ifinfomsg)
      → IsValid self
      → Link.size self ≡ 16 + sizes (var_laws ifla) self.rtattrs.items
  unfolding Link.size
  size_lem self v =
      rw (asize_all_lem (var_laws ifla) self.rtattrs v.attrs_AreValid v.attrs_IsSmall) refl

  pub serialize-Writes :
      (self : Ifinfomsg) → IsValid self → Writes (Link.serialize self) (bytes self)
  unfolding Link.serialize bytes
  serialize-Writes self v = Writes-then _ _ (Writes-var rt_addr_family self.ifi_family) (
      Writes-then _ _ (Writes-uint 1 0) (
        Writes-then _ _ (Writes-var arphrd self.ifi_type) (
          Writes-then _ _ (Writes-uint 4 self.ifi_index) (
            Writes-then _ _ (Writes-uint 4 (fold_flags iff_into 0 self.ifi_flags)) (
              Writes-then _ _ (Writes-var iff self.ifi_change) (
                Writes-last _
                  (serialize_all-Writes (var_laws ifla) self.rtattrs v.attrs_AreValid)))))))

  -- With its size as the hint, as a header gives it, a well-formed message reads back.
  pub deserialize-Reads :
      (self : Ifinfomsg)
      → IsValid self
      → Reads Link.deserialize (some (Link.size self)) (bytes self) self none
  unfolding Link.deserialize Link.new bytes
  deserialize-Reads self v =
      let h = some (Link.size self) in
      let rest = sizes (var_laws ifla) self.rtattrs.items in
      Reads-silent _ _ h (λ f r. rw (b.take_size_hint_lem f r h))
        (Reads-silent _ _ (Link.size self) (λ f r. refl)
          (Reads-bind _ _ (Reads-var rt_addr_family self.ifi_family none v.family_IsEncodable) (
            Reads-bind _ _ (Reads-uint 1 0 none (omega arith)) (
              Reads-bind _ _ (Reads-var arphrd self.ifi_type none v.type_IsEncodable) (
                Reads-bind _ _ (Reads-uint 4 self.ifi_index none v.index_fits) (
                  Reads-bind _ _ (Reads-uint 4 word none flags_fit) (
                    Reads-bind _ _
                      (Reads-uint 4 (iff_into self.ifi_change) none v.change_IsEncodable.0)
                      (Reads-silent _ _ rest left (
                        Reads-silent _ _ tt (λ f r. rw (b.set_size_hint_lem f r none rest))
                          (Reads-last _ _
                            (deserialize_all-Reads (var_laws ifla) self.rtattrs.items
                              v.attrs_AreValid)
                            (rw
                              (flags_from-fold_flags iff (λ _. refl) 32 self.ifi_flags
                                v.flags_AreFlags)
                              (rw (v.change_IsEncodable.1) (Reads-pure self)))))))))))))
    where
      word : ℕ
      word = fold_flags iff_into 0 self.ifi_flags

      flags_fit : word < 256 ^ 4
      flags_fit = fold_flags_fits iff (λ _. refl) 32 self.ifi_flags v.flags_AreFlags

      left :
          (f r : List ℕ)
          → ok_or
              (checked_sub (Link.size self) 16)
              (de_error (◌<>◌ "Truncated Ifinfomsg size_hint " (decimal (Link.size self))))
              (b.reader f r none)
            ≡ (ok (sizes (var_laws ifla) self.rtattrs.items), b.reader f r none)
      left f r =
          let rest : Link.size self - 16 ≡ sizes (var_laws ifla) self.rtattrs.items =
            omega (arith, size_lem self v) in
          rw (le→leb 16 (Link.size self) (omega (arith, size_lem self v))) (rw rest)

  pub length-bytes : (self : Ifinfomsg) → IsValid self → length (bytes self) ≡ Link.size self
  unfolding bytes
  length-bytes self v =
      let items = bytes_items (var_laws ifla) self.rtattrs.items in
      let change = b.encode 4 (iff_into self.ifi_change) ++ items in
      let flags = b.encode 4 (fold_flags iff_into 0 self.ifi_flags) ++ change in
      let index = b.encode 4 self.ifi_index ++ flags in
      let kind = b.encode 2 (arphrd_into self.ifi_type) ++ index in
      omega (
        arith,
        length-append (b.encode 1 (rt_addr_family_into self.ifi_family)) (b.encode 1 0 ++ kind),
        length-append (b.encode 1 0) kind,
        length-append (b.encode 2 (arphrd_into self.ifi_type)) index,
        length-append (b.encode 4 self.ifi_index) flags,
        length-append (b.encode 4 (fold_flags iff_into 0 self.ifi_flags)) change,
        length-append (b.encode 4 (iff_into self.ifi_change)) items,
        b.length-encode 1 (rt_addr_family_into self.ifi_family),
        b.length-encode 1 0,
        b.length-encode 2 (arphrd_into self.ifi_type),
        b.length-encode 4 self.ifi_index,
        b.length-encode 4 (fold_flags iff_into 0 self.ifi_flags),
        b.length-encode 4 (iff_into self.ifi_change),
        length-bytes_items (var_laws ifla) self.rtattrs.items v.attrs_AreValid,
        size_lem self v,
      )

  -- An interface message whose constants are encodable, whose numbers fit, whose flags are those of a 32-bit
  -- word in order and whose attributes are well formed is written as the bytes of its fields and of
  -- its attributes, `size` in number; and with that number as the hint it reads back from them,
  -- whatever follows.
  pub ifinfomsg_round_trip :
      (self : Ifinfomsg)
      → IsValid self
      → Writes (Link.serialize self) (bytes self)
        × (length (bytes self) ≡ Link.size self)
        × Reads Link.deserialize (some (Link.size self)) (bytes self) self none
  ifinfomsg_round_trip self v =
      (serialize-Writes self v, length-bytes self v, deserialize-Reads self v)

  abbrev pub ifinfomsg_laws : Payload ifinfomsg
  ifinfomsg_laws = record {
    IsValid = IsValid;
    bytes = bytes;
    after = λ _. none;
    length_bytes = length-bytes;
    writes = serialize-Writes;
    reads = deserialize-Reads;
  }
