-- ===== src/Nlattr/RoundTrip.antt =====
-- What a well-formed attribute is on the wire, and that it reads back. Wherever an attribute stands
-- the reader takes off its bytes and the padding after them.
use neli.Base.{ℕ, ◌+◌, ◌-◌, ◌^◌, ◌<◌, ◌≡◌, arith}
use neli.Base.{Option, List, ◌++◌, length, length-append, length-replicate}
use neli.Outcome.{ok, sub_or_panic}
use neli.Err.{DeError}
use neli.Buffering.{Libc, Buffering}
use neli.Nl.{Nl}
use neli.Nl.Runs.{
  Writes, Reads, Writes-then, Writes-last, Reads-bind, Reads-last, Reads-pure, Reads-silent,
}
use neli.Nl.Uint.{Writes-uint, Reads-uint}
use neli.Nl.Padding.{IsSmall, padding, length-padding, Writes-pad, Reads-strip, sub_or_panic_lem}
use neli.Nl.Laws.{Fixed, Payload}
use neli.Nlattr
use neli.Nlattr.{Nlattr}

module _ ⦃c : Libc⦄ ⦃b : Buffering⦄ {T P : Type 0} {t : Nl T} {p : Nl P} {w : ℕ} (tl : Fixed t w)
    (pl : Payload p) where
  -- The length field is the true length, and fits its 16 bits.
  pub record IsValid (self : Nlattr T P) : Type 0 where
    pub len_is_size : self.nla_len ≡ Nlattr.size t p self
    pub len_fits : self.nla_len < 2 ^ 16
    pub type_IsValid : tl.IsValid self.nla_type
    pub payload_IsValid : pl.IsValid self.payload

  pub bytes : Nlattr T P → List ℕ
  bytes self =
      b.encode 2 self.nla_len
      ++ (tl.bytes self.nla_type ++ (pl.bytes self.payload ++ padding (Nlattr.size t p self)))

  pub size_lem : (self : Nlattr T P) → Nlattr.size t p self ≡ 2 + w + p.size self.payload
  unfolding Nlattr.size
  size_lem self = rw (tl.sized self.nla_type)

  pub IsValid-IsSmall : (self : Nlattr T P) → IsValid self → IsSmall (Nlattr.size t p self)
  IsValid-IsSmall self v = omega arith

  -- The bytes that are written are as many as `asize` says, a multiple of 4.
  pub length-bytes :
      (self : Nlattr T P)
      → pl.IsValid self.payload
      → IsSmall (Nlattr.size t p self)
      → length (bytes self) ≡ Nlattr.asize t p self
  unfolding bytes
  length-bytes self pv small = omega (
    arith,
    length-append (b.encode 2 self.nla_len)
        (tl.bytes self.nla_type ++ (pl.bytes self.payload ++ padding (Nlattr.size t p self))),
    length-append (tl.bytes self.nla_type)
        (pl.bytes self.payload ++ padding (Nlattr.size t p self)),
    length-append (pl.bytes self.payload) (padding (Nlattr.size t p self)),
    b.length-encode 2 self.nla_len,
    tl.length_bytes self.nla_type,
    pl.length_bytes self.payload pv,
    length-padding (Nlattr.size t p self) small,
    size_lem self,
  )

  pub serialize-Writes :
      (self : Nlattr T P)
      → pl.IsValid self.payload
      → IsSmall (Nlattr.size t p self)
      → Writes (Nlattr.serialize t p self) (bytes self)
  unfolding Nlattr.serialize bytes
  serialize-Writes self pv small = Writes-then _ _ (Writes-uint 2 self.nla_len) (
      Writes-then _ _ (tl.writes self.nla_type) (
        Writes-then _ _ (pl.writes self.payload pv)
          (Writes-last _ (Writes-pad (Nlattr.size t p self) small))))

  -- A well-formed attribute reads back, whatever the hint and whatever follows.
  pub deserialize-Reads :
      (self : Nlattr T P) (h : Option ℕ)
      → IsValid self
      → Reads (Nlattr.deserialize t p) h (bytes self) self (pl.after self.payload)
  unfolding Nlattr.deserialize bytes
  deserialize-Reads self h v = Reads-bind _ _ (Reads-uint 2 self.nla_len h v.len_fits) (
      Reads-bind _ _ (tl.reads self.nla_type h v.type_IsValid) (
        Reads-silent _ _ (p.size self.payload) hint (
          Reads-silent _ _ tt (λ f r. rw (b.set_size_hint_lem f r h (p.size self.payload)))
            (Reads-bind _ _ (pl.reads self.payload v.payload_IsValid) (
              Reads-last _ _
                (Reads-strip (Nlattr.size t p self) (IsValid-IsSmall self v) (pl.after self.payload)
                  _ (length-replicate {A = ℕ} (Nlattr.asize t p self - Nlattr.size t p self) 0))
                (Reads-pure self))))))
    where
      payload_left : self.nla_len - (2 + t.size self.nla_type) ≡ p.size self.payload
      payload_left = unfold Nlattr.size in omega arith

      hint :
          (f r : List ℕ)
          → sub_or_panic {E = DeError} self.nla_len (2 + t.size self.nla_type) (b.reader f r h)
            ≡ (ok (p.size self.payload), b.reader f r h)
      hint f r = rw (← payload_left) (
          sub_or_panic_lem self.nla_len (2 + t.size self.nla_type) (b.reader f r h)
            (unfold Nlattr.size in omega arith))

  -- An attribute whose length field is its true length in 16 bits, and whose type and payload are
  -- valid, is written as the bytes of its fields, the payload and the padding, `asize` in number; and
  -- from those bytes it reads back, whatever the hint and whatever follows.
  pub nlattr_round_trip :
      (self : Nlattr T P) (h : Option ℕ)
      → IsValid self
      → Writes (Nlattr.serialize t p self) (bytes self)
        × (length (bytes self) ≡ Nlattr.asize t p self)
        × Reads (Nlattr.deserialize t p) h (bytes self) self (pl.after self.payload)
  nlattr_round_trip self h v = (
    serialize-Writes self v.payload_IsValid (IsValid-IsSmall self v),
    length-bytes self v.payload_IsValid (IsValid-IsSmall self v),
    deserialize-Reads self h v,
  )
