-- ===== src/Rtnl/Neighbour/RoundTrip.antt =====
-- What a well-formed neighbour message is on the wire, and that it reads back; and cache information.
use neli.Base.{Option, ℕ, ◌+◌, ◌^◌, ◌<◌, ◌≡◌, refl, arith}
use neli.Base.{none, some, List, ◌++◌, length, length-append}
use neli.Buffering.{Libc, Buffering}
use neli.Nl.Runs.{
  Writes, Reads, Writes-then, Writes-last, Reads-bind, Reads-last, Reads-pure, Reads-silent,
}
use neli.Nl.Uint.{Writes-uint, Reads-uint}
use neli.Nl.Padding.{IsSmall, sub_or_panic_left}
use neli.Consts.Laws.{IsEncodable, var_laws, Writes-var, Reads-var}
use neli.Consts.Rtnl.Families.{rt_addr_family, rt_addr_family_into}
use neli.Consts.Rtnl.Routes.{rtn, rtn_into}
use neli.Consts.Rtnl.Neighbours.{nud, nud_into, ntf, ntf_into, nda}
use neli.Flags.{fold_flags}
use neli.Flags.Laws.{AreFlags, fold_flags_fits, flags_from-fold_flags}
use neli.Rtnl.Rtattr.Lists.{AreValid, sizes, bytes_items, length-bytes_items}
use neli.Rtnl.Rtattr.Lists.{deserialize_all-Reads, serialize_all-Writes, asize_all_lem}
use neli.Rtnl.Neighbour
use neli.Rtnl.Neighbour.{Ndmsg, NdaCacheinfo}

module _ ⦃c : Libc⦄ ⦃b : Buffering⦄ where
  pub record IsValid (self : Ndmsg) : Type 0 where
    pub ndm_family_IsEncodable : IsEncodable rt_addr_family self.ndm_family
    pub ndm_index_fits : self.ndm_index < 2 ^ 32
    pub ndm_state_AreFlags : AreFlags nud 16 self.ndm_state
    pub ndm_flags_AreFlags : AreFlags ntf 8 self.ndm_flags
    pub ndm_type_IsEncodable : IsEncodable rtn self.ndm_type
    pub attrs_AreValid : AreValid (var_laws nda) self.rtattrs.items
    pub attrs_IsSmall : IsSmall (sizes (var_laws nda) self.rtattrs.items)

  pub bytes : Ndmsg → List ℕ
  bytes self =
      b.encode 1 (rt_addr_family_into self.ndm_family)
      ++ (b.encode 1 0
          ++ (b.encode 2 0
              ++ (b.encode 4 self.ndm_index
                  ++ (b.encode 2 (fold_flags nud_into 0 self.ndm_state)
                      ++ (b.encode 1 (fold_flags ntf_into 0 self.ndm_flags)
                          ++ (b.encode 1 (rtn_into self.ndm_type)
                              ++ bytes_items (var_laws nda) self.rtattrs.items))))))

  pub size_lem :
      (self : Ndmsg)
      → IsValid self
      → Neighbour.size self ≡ 12 + sizes (var_laws nda) self.rtattrs.items
  unfolding Neighbour.size
  size_lem self v =
      rw (asize_all_lem (var_laws nda) self.rtattrs v.attrs_AreValid v.attrs_IsSmall) refl

  pub serialize-Writes :
      (self : Ndmsg) → IsValid self → Writes (Neighbour.serialize self) (bytes self)
  unfolding Neighbour.serialize bytes
  serialize-Writes self v =
      (Writes-then _ _ (Writes-var rt_addr_family self.ndm_family) (
        Writes-then _ _ (Writes-uint 1 0) (
          Writes-then _ _ (Writes-uint 2 0) (
            Writes-then _ _ (Writes-uint 4 self.ndm_index) (
              Writes-then _ _ (Writes-uint 2 (fold_flags nud_into 0 self.ndm_state)) (
                Writes-then _ _ (Writes-uint 1 (fold_flags ntf_into 0 self.ndm_flags)) (
                  Writes-then _ _ (Writes-var rtn self.ndm_type) (
                    Writes-last _
                      (serialize_all-Writes (var_laws nda) self.rtattrs v.attrs_AreValid)))))))))

  -- With the number of its bytes as the hint, a well-formed message reads back.
  pub deserialize-Reads :
      (self : Ndmsg)
      → IsValid self
      → Reads Neighbour.deserialize (some (Neighbour.size self)) (bytes self) self none
  unfolding Neighbour.deserialize bytes
  deserialize-Reads self v =
      let h = (some (Neighbour.size self)) in
      let items = sizes (var_laws nda) self.rtattrs.items in
      (Reads-silent _ _ h (λ f r. rw (b.take_size_hint_lem f r h))
        (Reads-silent _ _ (Neighbour.size self) (λ f r. refl)
          (Reads-bind _ _ (Reads-var rt_addr_family self.ndm_family none v.ndm_family_IsEncodable) (
            Reads-bind _ _ (Reads-uint 1 0 none (omega arith)) (
              Reads-bind _ _ (Reads-uint 2 0 none (omega arith)) (
                Reads-bind _ _ (Reads-uint 4 self.ndm_index none v.ndm_index_fits) (
                  Reads-bind _ _
                    (Reads-uint 2 (fold_flags nud_into 0 self.ndm_state) none
                      (fold_flags_fits nud (λ _. refl) 16 self.ndm_state v.ndm_state_AreFlags))
                    (Reads-bind _ _
                      (Reads-uint 1 (fold_flags ntf_into 0 self.ndm_flags) none
                        (fold_flags_fits ntf (λ _. refl) 8 self.ndm_flags v.ndm_flags_AreFlags))
                      (Reads-bind _ _ (Reads-var rtn self.ndm_type none v.ndm_type_IsEncodable) (
                        Reads-silent _ _ (11 + items)
                          (λ f r. sub_or_panic_left _ _ _ (omega (arith, size_lem self v)) _)
                          (Reads-silent _ _ (8 + items)
                            (λ f r. sub_or_panic_left _ _ _ (omega (arith, size_lem self v)) _)
                            (Reads-silent _ _ (4 + items)
                              (λ f r. sub_or_panic_left _ _ _ (omega (arith, size_lem self v)) _)
                              (Reads-silent _ _ (2 + items)
                                (λ f r. sub_or_panic_left _ _ _ (omega (arith, size_lem self v)) _)
                                (Reads-silent _ _ (1 + items)
                                  (λ f r.
                                    sub_or_panic_left _ _ _ (omega (arith, size_lem self v)) _)
                                  (Reads-silent _ _ items
                                    (λ f r.
                                      sub_or_panic_left _ _ _ (omega (arith, size_lem self v)) _)
                                    (Reads-silent _ _ tt
                                      (λ f r. rw (b.set_size_hint_lem f r none items))
                                      (Reads-last _ _
                                        (deserialize_all-Reads (var_laws nda) self.rtattrs.items
                                          v.attrs_AreValid)
                                        (rw
                                          (flags_from-fold_flags nud (λ _. refl) 16 self.ndm_state
                                            v.ndm_state_AreFlags)
                                          (rw
                                            (flags_from-fold_flags ntf (λ _. refl) 8 self.ndm_flags
                                              v.ndm_flags_AreFlags)
                                            (Reads-pure self))))))))))))))))))))

  pub length-bytes : (self : Ndmsg) → IsValid self → length (bytes self) ≡ Neighbour.size self
  unfolding bytes
  length-bytes self v =
      let after6 = bytes_items (var_laws nda) self.rtattrs.items in
      let after5 = b.encode 1 (rtn_into self.ndm_type) ++ after6 in
      let after4 = b.encode 1 (fold_flags ntf_into 0 self.ndm_flags) ++ after5 in
      let after3 = b.encode 2 (fold_flags nud_into 0 self.ndm_state) ++ after4 in
      let after2 = b.encode 4 self.ndm_index ++ after3 in
      let after1 = b.encode 2 0 ++ after2 in
      let after0 = b.encode 1 0 ++ after1 in
      omega (
        arith,
        length-append (b.encode 1 (rt_addr_family_into self.ndm_family)) after0,
        b.length-encode 1 (rt_addr_family_into self.ndm_family),
        length-append (b.encode 1 0) after1,
        b.length-encode 1 0,
        length-append (b.encode 2 0) after2,
        b.length-encode 2 0,
        length-append (b.encode 4 self.ndm_index) after3,
        b.length-encode 4 self.ndm_index,
        length-append (b.encode 2 (fold_flags nud_into 0 self.ndm_state)) after4,
        b.length-encode 2 (fold_flags nud_into 0 self.ndm_state),
        length-append (b.encode 1 (fold_flags ntf_into 0 self.ndm_flags)) after5,
        b.length-encode 1 (fold_flags ntf_into 0 self.ndm_flags),
        length-append (b.encode 1 (rtn_into self.ndm_type)) after6,
        b.length-encode 1 (rtn_into self.ndm_type),
        length-bytes_items (var_laws nda) self.rtattrs.items v.attrs_AreValid,
        size_lem self v,
      )

  -- A neighbour message whose constants are encodable, whose numbers fit, whose flags are those of a word of
  -- their width in order and whose attributes are well formed is written as the bytes of its fields
  -- and of its attributes, `size` in number; and with that number as the hint it reads back from
  -- them, whatever follows.
  pub ndmsg_round_trip :
      (self : Ndmsg)
      → IsValid self
      → Writes (Neighbour.serialize self) (bytes self)
        × (length (bytes self) ≡ Neighbour.size self)
        × Reads Neighbour.deserialize (some (Neighbour.size self)) (bytes self) self none
  ndmsg_round_trip self v = (serialize-Writes self v, length-bytes self v, deserialize-Reads self v)

module _ ⦃c : Libc⦄ ⦃b : Buffering⦄ where
  pub record AreWords (self : NdaCacheinfo) : Type 0 where
    pub confirmed_fits : self.ndm_confirmed < 2 ^ 32
    pub used_fits : self.ndm_used < 2 ^ 32
    pub updated_fits : self.ndm_updated < 2 ^ 32
    pub refcnt_fits : self.ndm_refcnt < 2 ^ 32

  pub cacheinfo_bytes : NdaCacheinfo → List ℕ
  cacheinfo_bytes self =
      b.encode 4 self.ndm_confirmed
      ++ (b.encode 4 self.ndm_used ++ (b.encode 4 self.ndm_updated ++ b.encode 4 self.ndm_refcnt))

  -- Cache information of 32-bit numbers is written as their bytes in order, and reads back from them,
  -- whatever the hint, which stays, and whatever follows.
  pub nda_cacheinfo_round_trip :
      (self : NdaCacheinfo) (h : Option ℕ)
      → AreWords self
      → Writes (Neighbour.serialize_cacheinfo self) (cacheinfo_bytes self)
        × Reads Neighbour.deserialize_cacheinfo h (cacheinfo_bytes self) self h
  unfolding Neighbour.serialize_cacheinfo Neighbour.deserialize_cacheinfo cacheinfo_bytes
  nda_cacheinfo_round_trip self h v = (
    Writes-then _ _ (Writes-uint 4 self.ndm_confirmed) (
        Writes-then _ _ (Writes-uint 4 self.ndm_used) (
          Writes-then _ _ (Writes-uint 4 self.ndm_updated)
            (Writes-last _ (Writes-uint 4 self.ndm_refcnt)))),
    Reads-bind _ _ (Reads-uint 4 self.ndm_confirmed h v.confirmed_fits) (
        Reads-bind _ _ (Reads-uint 4 self.ndm_used h v.used_fits) (
          Reads-bind _ _ (Reads-uint 4 self.ndm_updated h v.updated_fits)
            (Reads-last _ _ (Reads-uint 4 self.ndm_refcnt h v.refcnt_fits) (Reads-pure self)))),
  )
