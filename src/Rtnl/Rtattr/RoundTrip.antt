-- ===== src/Rtnl/Rtattr/RoundTrip.antt =====
-- What a well-formed routing attribute is on the wire, and that it reads back.
use neli.Base.{ℕ, ◌+◌, ◌-◌, ◌^◌, ◌≤◌, ◌<◌, ◌≡◌, arith, le→leb, Option, List, ◌++◌}
use neli.Base.{length, length-append, length-replicate}
use neli.Outcome.{ok, checked_sub, ok_or}
use neli.Buffering.{Libc, Buffering}
use neli.Nl.{Nl}
use neli.Nl.Runs.{
  Writes, Reads, Writes-then, Writes-last, Reads-bind, Reads-last, Reads-pure, Reads-silent,
}
use neli.Nl.Uint.{Writes-uint, Reads-uint}
use neli.Nl.Padding.{IsSmall, padding, length-padding, Writes-pad, Reads-strip}
use neli.Nl.Laws.{Fixed, Payload}
use neli.Rtnl.Rtattr
use neli.Rtnl.Rtattr.{Rtattr, invalid_size}

module _ ⦃c : Libc⦄ ⦃b : Buffering⦄ {T P : Type 0} {t : Nl T} {p : Nl P} (tl : Fixed t 2)
    (pl : Payload p) where
  pub record IsValid (self : Rtattr T P) : Type 0 where
    pub len_is_size : self.rta_len ≡ Rtattr.size t p self
    pub len_fits : self.rta_len < 2 ^ 16
    pub type_IsValid : tl.IsValid self.rta_type
    pub payload_IsValid : pl.IsValid self.rta_payload

  pub bytes : Rtattr T P → List ℕ
  bytes self =
      b.encode 2 self.rta_len
      ++ (tl.bytes self.rta_type ++ (pl.bytes self.rta_payload ++ padding (Rtattr.size t p self)))

  pub size_lem : (self : Rtattr T P) → Rtattr.size t p self ≡ 4 + p.size self.rta_payload
  unfolding Rtattr.size
  size_lem self = rw (tl.sized self.rta_type)

  pub IsValid-IsSmall : (self : Rtattr T P) → IsValid self → IsSmall (Rtattr.size t p self)
  IsValid-IsSmall self v = omega arith

  pub length-bytes :
      (self : Rtattr T P) → IsValid self → length (bytes self) ≡ Rtattr.asize t p self
  unfolding bytes
  length-bytes self v =
      let pad = padding (Rtattr.size t p self) in
      omega (
        arith,
        length-append (b.encode 2 self.rta_len)
            (tl.bytes self.rta_type ++ (pl.bytes self.rta_payload ++ pad)),
        length-append (tl.bytes self.rta_type) (pl.bytes self.rta_payload ++ pad),
        length-append (pl.bytes self.rta_payload) pad,
        b.length-encode 2 self.rta_len,
        tl.length_bytes self.rta_type,
        pl.length_bytes self.rta_payload v.payload_IsValid,
        length-padding (Rtattr.size t p self) (IsValid-IsSmall self v),
        size_lem self,
      )

  pub serialize-Writes :
      (self : Rtattr T P) → IsValid self → Writes (Rtattr.serialize t p self) (bytes self)
  unfolding Rtattr.serialize bytes
  serialize-Writes self v = Writes-then _ _ (Writes-uint 2 self.rta_len) (
      Writes-then _ _ (tl.writes self.rta_type) (
        Writes-then _ _ (pl.writes self.rta_payload v.payload_IsValid)
          (Writes-last _ (Writes-pad (Rtattr.size t p self) (IsValid-IsSmall self v)))))

  -- A well-formed routing attribute reads back, whatever the hint and whatever follows.
  pub deserialize-Reads :
      (self : Rtattr T P) (h : Option ℕ)
      → IsValid self
      → Reads (Rtattr.deserialize t p) h (bytes self) self (pl.after self.rta_payload)
  unfolding Rtattr.deserialize bytes
  deserialize-Reads self h v = Reads-bind _ _ (Reads-uint 2 self.rta_len h v.len_fits) (
      Reads-bind _ _ (tl.reads self.rta_type h v.type_IsValid) (
        Reads-silent _ _ (p.size self.rta_payload) hint (
          Reads-silent _ _ tt (λ f r. rw (b.set_size_hint_lem f r h (p.size self.rta_payload)))
            (Reads-bind _ _ (pl.reads self.rta_payload v.payload_IsValid) (
              Reads-last _ _
                (Reads-strip (Rtattr.size t p self) (IsValid-IsSmall self v)
                  (pl.after self.rta_payload) _
                  (length-replicate {A = ℕ} (Rtattr.asize t p self - Rtattr.size t p self) 0))
                (Reads-pure self))))))
    where
      hint :
          (f r : List ℕ)
          → ok_or
              (checked_sub self.rta_len (2 + t.size self.rta_type))
              (invalid_size self.rta_len)
              (b.reader f r h)
            ≡ (ok (p.size self.rta_payload), b.reader f r h)
      hint f r =
          let enough : 2 + t.size self.rta_type ≤ self.rta_len =
            omega (arith, size_lem self, tl.sized self.rta_type) in
          let left : self.rta_len - (2 + t.size self.rta_type) ≡ p.size self.rta_payload =
            omega (arith, size_lem self, tl.sized self.rta_type) in
          rw (le→leb _ _ enough) (rw left)

  -- A routing attribute whose length field is its true length in 16 bits, and whose type and payload
  -- are valid, is written as the bytes of its fields, the payload and the padding, `asize` in number;
  -- and from those bytes it reads back, whatever the hint and whatever follows.
  pub rtattr_round_trip :
      (self : Rtattr T P) (h : Option ℕ)
      → IsValid self
      → Writes (Rtattr.serialize t p self) (bytes self)
        × (length (bytes self) ≡ Rtattr.asize t p self)
        × Reads (Rtattr.deserialize t p) h (bytes self) self (pl.after self.rta_payload)
  rtattr_round_trip self h v =
      (serialize-Writes self v, length-bytes self v, deserialize-Reads self h v)
