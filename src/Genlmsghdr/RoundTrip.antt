-- ===== src/Genlmsghdr/RoundTrip.antt =====
-- What a well-formed generic netlink payload is on the wire, and that it reads back.
use neli.Base.{ℕ, ◌+◌, ◌-◌, ◌^◌, ◌<◌, ◌≡◌, ap, arith, subst}
use neli.Base.{none, some, List, [], ◌++◌, length, length-append, append-nil, replicate}
use neli.Outcome.{ok, pure, ◌>>◌}
use neli.Buffering.{Libc, Buffering, All}
use neli.Nl.{Nl, alignto, pad}
use neli.Nl.Runs.{
  Writes, Reads, Writes-then, Writes-last, Reads-bind, Reads-last, Reads-pure, Reads-silent,
}
use neli.Nl.Uint.{Writes-uint, Reads-uint}
use neli.Nl.Bytes.{vec_u8}
use neli.Nl.Padding.{IsSmall, padding, alignto_lem, Writes-pad, Reads-strip, sub_or_panic_lem}
use neli.Nl.Laws.{Fixed, Payload, vec_laws}
use neli.Nlattr
use neli.Nlattr.RoundTrip.{IsValid as IsValidAttr}
use neli.Nlattr.Lists.{bytes_all, after_all-vec, length-bytes_all, serialize_all-Writes}
use neli.Nlattr.Lists.{deserialize_all-Reads, asize_all_aligned}
use neli.Genlmsghdr
use neli.Genlmsghdr.{Genlmsghdr, genlmsghdr, hint_after}

module _ ⦃c : Libc⦄ ⦃b : Buffering⦄ {C T : Type 0} {k : Nl C} {t : Nl T} {w : ℕ} (kl : Fixed k 1)
    (tl : Fixed t w) where
  pub record IsValid (self : Genlmsghdr C T) : Type 0 where
    pub cmd_IsValid : kl.IsValid self.cmd
    pub version_fits : self.version < 2 ^ 8
    pub reserved_fits : self.reserved < 2 ^ 16
    pub attrs_IsValid : All (IsValidAttr tl vec_laws) self.attrs
    pub IsSmall_size : IsSmall (Genlmsghdr.size k t self)

  pub bytes : Genlmsghdr C T → List ℕ
  bytes self =
      kl.bytes self.cmd
      ++ (b.encode 1 self.version ++ (b.encode 2 self.reserved ++ bytes_all tl vec_laws self.attrs))

  pub size_lem :
      (self : Genlmsghdr C T) → Genlmsghdr.size k t self ≡ 4 + Nlattr.asize_all t vec_u8 self.attrs
  unfolding Genlmsghdr.size
  size_lem self = rw (kl.sized self.cmd)

  -- A payload made of attributes needs no padding.
  pub size_aligned :
      (self : Genlmsghdr C T)
      → IsValid self
      → alignto (Genlmsghdr.size k t self) ≡ Genlmsghdr.size k t self
  size_aligned self v = omega (
    arith,
    alignto_lem (Genlmsghdr.size k t self) v.IsSmall_size,
    asize_all_aligned tl vec_laws self.attrs v.attrs_IsValid,
    size_lem self,
  )

  no_padding : (self : Genlmsghdr C T) → IsValid self → padding (Genlmsghdr.size k t self) ≡ []
  no_padding self v =
      let none_left : alignto (Genlmsghdr.size k t self) - Genlmsghdr.size k t self ≡ 0 =
        omega (arith, size_aligned self v) in
      ap (λ (n : ℕ). replicate n 0) none_left

  pub length-bytes :
      (self : Genlmsghdr C T) → IsValid self → length (bytes self) ≡ Genlmsghdr.size k t self
  unfolding bytes
  length-bytes self v = omega (
    arith,
    length-append (kl.bytes self.cmd)
        (b.encode 1 self.version ++ (b.encode 2 self.reserved ++ bytes_all tl vec_laws self.attrs)),
    length-append (b.encode 1 self.version)
        (b.encode 2 self.reserved ++ bytes_all tl vec_laws self.attrs),
    length-append (b.encode 2 self.reserved) (bytes_all tl vec_laws self.attrs),
    kl.length_bytes self.cmd,
    b.length-encode 1 self.version,
    b.length-encode 2 self.reserved,
    length-bytes_all tl vec_laws self.attrs v.attrs_IsValid,
    size_lem self,
  )

  pub serialize-Writes :
      (self : Genlmsghdr C T) → IsValid self → Writes (Genlmsghdr.serialize k t self) (bytes self)
  unfolding Genlmsghdr.serialize bytes
  serialize-Writes self v = Writes-then _ _ (kl.writes self.cmd) (
      Writes-then _ _ (Writes-uint 1 self.version) (
        Writes-then _ _ (Writes-uint 2 self.reserved) (
          rw append-nil at (
            Writes-then _ _ (serialize_all-Writes tl vec_laws self.attrs v.attrs_IsValid) (
              subst
                (λ xs.
                  Writes (pad (Genlmsghdr.size k t self) (Genlmsghdr.asize k t self) >> pure tt) xs)
                (no_padding self v)
                (Writes-last _ (Writes-pad (Genlmsghdr.size k t self) v.IsSmall_size)))))))

  -- With its size as the hint, as a header gives it, a well-formed payload reads back.
  pub deserialize-Reads :
      (self : Genlmsghdr C T)
      → IsValid self
      → Reads (Genlmsghdr.deserialize k t) (some (Genlmsghdr.size k t self)) (bytes self) self none
  unfolding Genlmsghdr.deserialize bytes
  deserialize-Reads self v =
      let h = some (Genlmsghdr.size k t self) in
      let attrs_size = Nlattr.asize_all t vec_u8 self.attrs in
      Reads-bind _ _ (kl.reads self.cmd h v.cmd_IsValid) (
        Reads-bind _ _ (Reads-uint 1 self.version h v.version_fits) (
          Reads-bind _ _ (Reads-uint 2 self.reserved h v.reserved_fits) (
            Reads-silent _ _ h (λ f r. rw (b.take_size_hint_lem f r h))
              (Reads-silent _ _ attrs_size hint (
                Reads-silent _ _ tt (λ f r. rw (b.set_size_hint_lem f r none attrs_size))
                  (Reads-last _ _
                    (rw (after_all-vec tl self.attrs) at
                      (deserialize_all-Reads tl vec_laws self.attrs v.attrs_IsValid))
                    (Reads-last _ _
                      (Reads-strip (Genlmsghdr.size k t self) v.IsSmall_size none [] strip_none)
                      (Reads-pure self))))))))
    where
      strip_none : length {A = ℕ} [] ≡ alignto (Genlmsghdr.size k t self) - Genlmsghdr.size k t self
      strip_none = omega (arith, size_aligned self v)

      hint :
          (f r : List ℕ)
          → hint_after
              (some (Genlmsghdr.size k t self))
              (k.size self.cmd + 1 + 2)
              (b.reader f r none)
            ≡ (ok (Nlattr.asize_all t vec_u8 self.attrs), b.reader f r none)
      hint f r =
          let left : Genlmsghdr.size k t self - (k.size self.cmd + 1 + 2)
              ≡ Nlattr.asize_all t vec_u8 self.attrs =
            omega (arith, size_lem self, kl.sized self.cmd) in
          rw (← left) (
            sub_or_panic_lem (Genlmsghdr.size k t self) (k.size self.cmd + 1 + 2)
              (b.reader f r none) (omega (arith, size_lem self, kl.sized self.cmd)))

  -- A payload whose command, numbers and attributes are valid is written as the bytes of its fields
  -- and of its attributes, `size` in number; and with that number as the hint it reads back from them,
  -- whatever follows.
  pub genlmsghdr_round_trip :
      (self : Genlmsghdr C T)
      → IsValid self
      → Writes (Genlmsghdr.serialize k t self) (bytes self)
        × (length (bytes self) ≡ Genlmsghdr.size k t self)
        × Reads
            (Genlmsghdr.deserialize k t)
            (some (Genlmsghdr.size k t self))
            (bytes self)
            self
            none
  genlmsghdr_round_trip self v =
      (serialize-Writes self v, length-bytes self v, deserialize-Reads self v)

  abbrev pub genl_laws : Payload (genlmsghdr k t)
  genl_laws = record {
    IsValid = IsValid;
    bytes = bytes;
    after = λ _. none;
    length_bytes = length-bytes;
    writes = serialize-Writes;
    reads = deserialize-Reads;
  }
