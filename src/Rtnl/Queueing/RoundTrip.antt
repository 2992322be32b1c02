-- ===== src/Rtnl/Queueing/RoundTrip.antt =====
-- What a well-formed queueing message is on the wire, and that it reads back.
use neli.Base.{ℕ, ◌+◌, ◌-◌, ◌^◌, ◌<◌, ◌≡◌, refl, arith, le→leb}
use neli.Base.{none, some, List, ◌++◌, length, length-append}
use neli.Base.Decimal.{decimal, ◌<>◌}
use neli.Outcome.{ok, checked_sub, ok_or}
use neli.Err.{de_error}
use neli.Buffering.{Libc, Buffering}
use neli.Nl.Runs.{
  Writes, Reads, Writes-then, Writes-last, Reads-bind, Reads-last, Reads-pure, Reads-silent,
}
use neli.Nl.Uint.{Writes-uint, Reads-uint}
use neli.Nl.Padding.{IsSmall}
use neli.Consts.Laws.{var_laws}
use neli.Consts.Rtnl.Attrs.{tca}
use neli.Rtnl.Rtattr.Lists.{AreValid, sizes, bytes_items, length-bytes_items}
use neli.Rtnl.Rtattr.Lists.{deserialize_all-Reads, serialize_all-Writes}
use neli.Rtnl.Queueing
use neli.Rtnl.Queueing.{Tcmsg, tcmsg}

module _ ⦃c : Libc⦄ ⦃b : Buffering⦄ where
  pub record IsValid (self : Tcmsg) : Type 0 where
    pub tcm_family_fits : self.tcm_family < 2 ^ 8
    pub tcm_ifindex_fits : self.tcm_ifindex < 2 ^ 32
    pub tcm_handle_fits : self.tcm_handle < 2 ^ 32
    pub tcm_parent_fits : self.tcm_parent < 2 ^ 32
    pub tcm_info_fits : self.tcm_info < 2 ^ 32
    pub attrs_AreValid : AreValid (var_laws tca) self.rtattrs.items
    pub attrs_IsSmall : IsSmall (sizes (var_laws tca) self.rtattrs.items)

  pub bytes : Tcmsg → List ℕ
  bytes self =
      b.encode 1 self.tcm_family
      ++ (b.encode 1 0
          ++ (b.encode 2 0
              ++ (b.encode 4 self.tcm_ifindex
                  ++ (b.encode 4 self.tcm_handle
                      ++ (b.encode 4 self.tcm_parent
                          ++ (b.encode 4 self.tcm_info
                              ++ bytes_items (var_laws tca) self.rtattrs.items))))))

  -- The size counts the fields, and no attribute.
  pub size_lem : (self : Tcmsg) → Queueing.size self ≡ 20
  unfolding Queueing.size
  size_lem self = refl

  pub serialize-Writes :
      (self : Tcmsg) → IsValid self → Writes (Queueing.serialize self) (bytes self)
  unfolding Queueing.serialize bytes
  serialize-Writes self v =
      (Writes-then _ _ (Writes-uint 1 self.tcm_family) (
        Writes-then _ _ (Writes-uint 1 0) (
          Writes-then _ _ (Writes-uint 2 0) (
            Writes-then _ _ (Writes-uint 4 self.tcm_ifindex) (
              Writes-then _ _ (Writes-uint 4 self.tcm_handle) (
                Writes-then _ _ (Writes-uint 4 self.tcm_parent) (
                  Writes-then _ _ (Writes-uint 4 self.tcm_info) (
                    Writes-last _
                      (serialize_all-Writes (var_laws tca) self.rtattrs v.attrs_AreValid)))))))))

  -- With the number of its bytes as the hint, a well-formed message reads back.
  pub deserialize-Reads :
      (self : Tcmsg)
      → IsValid self
      → Reads Queueing.deserialize
          (some (20 + sizes (var_laws tca) self.rtattrs.items))
          (bytes self)
          self
          none
  unfolding Queueing.deserialize bytes
  deserialize-Reads self v =
      let h = (some (20 + sizes (var_laws tca) self.rtattrs.items)) in
      let items = sizes (var_laws tca) self.rtattrs.items in
      (Reads-silent _ _ h (λ f r. rw (b.take_size_hint_lem f r h))
        (Reads-silent _ _ (20 + sizes (var_laws tca) self.rtattrs.items) (λ f r. refl)
          (Reads-bind _ _ (Reads-uint 1 self.tcm_family none v.tcm_family_fits) (
            Reads-bind _ _ (Reads-uint 1 0 none (omega arith)) (
              Reads-bind _ _ (Reads-uint 2 0 none (omega arith)) (
                Reads-bind _ _ (Reads-uint 4 self.tcm_ifindex none v.tcm_ifindex_fits) (
                  Reads-bind _ _ (Reads-uint 4 self.tcm_handle none v.tcm_handle_fits) (
                    Reads-bind _ _ (Reads-uint 4 self.tcm_parent none v.tcm_parent_fits) (
                      Reads-bind _ _ (Reads-uint 4 self.tcm_info none v.tcm_info_fits) (
                        Reads-silent _ _ items left (
                          Reads-silent _ _ tt (λ f r. rw (b.set_size_hint_lem f r none items))
                            (Reads-last _ _
                              (deserialize_all-Reads (var_laws tca) self.rtattrs.items
                                v.attrs_AreValid)
                              (Reads-pure self)))))))))))))
    where
      left :
          (f r : List ℕ)
          → ok_or
              (checked_sub (20 + sizes (var_laws tca) self.rtattrs.items) 20)
              (de_error (
                ◌<>◌ "Truncated Tcmsg size_hint "
                  (decimal (20 + sizes (var_laws tca) self.rtattrs.items))))
              (b.reader f r none)
            ≡ (ok (sizes (var_laws tca) self.rtattrs.items), b.reader f r none)
      left f r =
          let rest : (20 + sizes (var_laws tca) self.rtattrs.items) - 20
              ≡ sizes (var_laws tca) self.rtattrs.items =
            omega arith in
          rw (le→leb 20 (20 + sizes (var_laws tca) self.rtattrs.items) (omega arith)) (rw rest)

  pub length-bytes :
      (self : Tcmsg)
      → IsValid self
      → length (bytes self) ≡ Queueing.size self + sizes (var_laws tca) self.rtattrs.items
  unfolding bytes
  length-bytes self v =
      let after6 = bytes_items (var_laws tca) self.rtattrs.items in
      let after5 = b.encode 4 self.tcm_info ++ after6 in
      let after4 = b.encode 4 self.tcm_parent ++ after5 in
      let after3 = b.encode 4 self.tcm_handle ++ after4 in
      let after2 = b.encode 4 self.tcm_ifindex ++ after3 in
      let after1 = b.encode 2 0 ++ after2 in
      let after0 = b.encode 1 0 ++ after1 in
      omega (
        arith,
        length-append (b.encode 1 self.tcm_family) after0,
        b.length-encode 1 self.tcm_family,
        length-append (b.encode 1 0) after1,
        b.length-encode 1 0,
        length-append (b.encode 2 0) after2,
        b.length-encode 2 0,
        length-append (b.encode 4 self.tcm_ifindex) after3,
        b.length-encode 4 self.tcm_ifindex,
        length-append (b.encode 4 self.tcm_handle) after4,
        b.length-encode 4 self.tcm_handle,
        length-append (b.encode 4 self.tcm_parent) after5,
        b.length-encode 4 self.tcm_parent,
        length-append (b.encode 4 self.tcm_info) after6,
        b.length-encode 4 self.tcm_info,
        length-bytes_items (var_laws tca) self.rtattrs.items v.attrs_AreValid,
        size_lem self,
      )

  -- A queueing message whose numbers fit and whose attributes are well formed is written as the bytes of its
  -- fields and of its attributes, more than `size` by those of the attributes; and with the whole
  -- number of its bytes as the hint it reads back from them, whatever follows.
  pub tcmsg_round_trip :
      (self : Tcmsg)
      → IsValid self
      → Writes (Queueing.serialize self) (bytes self)
        × (length (bytes self) ≡ Queueing.size self + sizes (var_laws tca) self.rtattrs.items)
        × Reads Queueing.deserialize
            (some (20 + sizes (var_laws tca) self.rtattrs.items))
            (bytes self)
            self
            none
  tcmsg_round_trip self v = (serialize-Writes self v, length-bytes self v, deserialize-Reads self v)
