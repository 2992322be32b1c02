-- ===== src/Nlmsgerr/RoundTrip.antt =====
-- What an error payload is on the wire, and that it reads back. The header inside is that of the
-- request: its length counts the payload of the request, which does not follow it here.
use neli.Base.{ℕ, ◌-◌, ◌^◌, ◌<◌, ◌≡◌, arith}
use neli.Base.{Option, some, List, ◌++◌, length, length-append, length-replicate}
use neli.Buffering.{Libc, Buffering}
use neli.Nl.{Nl}
use neli.Nl.Runs.{Writes, Reads, Writes-then, Writes-last, Reads-bind, Reads-last, Reads-pure}
use neli.Nl.Uint.{Writes-uint, Reads-uint}
use neli.Nl.Padding.{IsSmall, padding, length-padding, Writes-pad, Reads-strip, alignto_lem}
use neli.Nl.Laws.{Fixed, Payload}
use neli.Nlmsghdr
use neli.Nlmsghdr.{Nlmsghdr, NlEmpty, empty}
use neli.Nlmsghdr.RoundTrip as Header
use neli.Nlmsghdr.RoundTrip.{empty_laws, empty-Reads}
use neli.Nlmsgerr
use neli.Nlmsgerr.{Nlmsgerr, nlmsgerr}

module _ ⦃c : Libc⦄ ⦃b : Buffering⦄ {T : Type 0} {t : Nl T} (tl : Fixed t 2) where
  pub record IsValid (self : Nlmsgerr T) : Type 0 where
    pub error_fits : self.error < 2 ^ 32
    pub nlmsg_IsHeader : Header.IsHeader tl empty_laws self.nlmsg

  -- The hint that is left: the size of the request's payload.
  abbrev pub rest_of : Nlmsgerr T → Option ℕ
  rest_of self = some (self.nlmsg.nl_len - 16)

  header_IsSmall : (nlmsg : Nlmsghdr T NlEmpty) → IsSmall (Nlmsghdr.size t empty nlmsg)
  header_IsSmall nlmsg = omega (arith, Header.size_lem tl empty_laws nlmsg)

  length-header : (nlmsg : Nlmsghdr T NlEmpty) → length (Header.bytes tl empty_laws nlmsg) ≡ 16
  length-header nlmsg =
      let small = header_IsSmall nlmsg in
      omega (
        arith,
        Header.length-bytes_small tl empty_laws nlmsg tt small,
        Header.size_lem tl empty_laws nlmsg,
        alignto_lem (Nlmsghdr.size t empty nlmsg) small,
      )

  pub bytes : Nlmsgerr T → List ℕ
  bytes self =
      b.encode 4 self.error
      ++ (Header.bytes tl empty_laws self.nlmsg ++ padding (Nlmsgerr.size t self))

  pub size_lem : (self : Nlmsgerr T) → Nlmsgerr.size t self ≡ 20
  unfolding Nlmsgerr.size
  size_lem self = rw (Header.size_lem tl empty_laws self.nlmsg)

  size_IsSmall : (self : Nlmsgerr T) → IsSmall (Nlmsgerr.size t self)
  size_IsSmall self = omega (arith, size_lem self)

  pub length-bytes : (self : Nlmsgerr T) → IsValid self → length (bytes self) ≡ Nlmsgerr.size t self
  unfolding bytes
  length-bytes self v =
      let pad = padding (Nlmsgerr.size t self) in
      omega (
        arith,
        length-append (b.encode 4 self.error) (Header.bytes tl empty_laws self.nlmsg ++ pad),
        length-append (Header.bytes tl empty_laws self.nlmsg) pad,
        b.length-encode 4 self.error,
        length-header self.nlmsg,
        alignto_lem (Nlmsgerr.size t self) (size_IsSmall self),
        length-padding (Nlmsgerr.size t self) (size_IsSmall self),
        size_lem self,
      )

  pub serialize-Writes :
      (self : Nlmsgerr T) → IsValid self → Writes (Nlmsgerr.serialize t self) (bytes self)
  unfolding Nlmsgerr.serialize bytes
  serialize-Writes self v = Writes-then _ _ (Writes-uint 4 self.error) (
      Writes-then _ _
        (Header.serialize-Writes tl empty_laws self.nlmsg tt (header_IsSmall self.nlmsg))
        (Writes-last _ (Writes-pad (Nlmsgerr.size t self) (size_IsSmall self))))

  pub deserialize-Reads :
      (self : Nlmsgerr T) (h : Option ℕ)
      → IsValid self
      → Reads (Nlmsgerr.deserialize t) h (bytes self) self (rest_of self)
  unfolding Nlmsgerr.deserialize bytes
  deserialize-Reads self h v = Reads-bind _ _ (Reads-uint 4 self.error h v.error_fits) (
      Reads-bind _ _
        (Header.header-Reads tl empty_laws self.nlmsg h (rest_of self) v.nlmsg_IsHeader
          (header_IsSmall self.nlmsg) (empty-Reads self.nlmsg.nl_payload (rest_of self)))
        (Reads-last _ _
          (Reads-strip (Nlmsgerr.size t self) (size_IsSmall self) (rest_of self) _
            (length-replicate {A = ℕ} (Nlmsgerr.asize t self - Nlmsgerr.size t self) 0))
          (Reads-pure self)))

  -- An error payload whose number fits, and whose header has numbers that fit, a valid type, flags of a
  -- 16-bit word in order and any length from that of a header, as that of a request with a payload, is
  -- written as their bytes, `size` in number, and reads back from them, whatever the hint and whatever
  -- follows. The hint that is left is what the length has above that of the header.
  pub nlmsgerr_round_trip :
      (self : Nlmsgerr T) (h : Option ℕ)
      → IsValid self
      → Writes (Nlmsgerr.serialize t self) (bytes self)
        × (length (bytes self) ≡ Nlmsgerr.size t self)
        × Reads (Nlmsgerr.deserialize t) h (bytes self) self (rest_of self)
  nlmsgerr_round_trip self h v =
      (serialize-Writes self v, length-bytes self v, deserialize-Reads self h v)

  abbrev pub nlmsgerr_laws : Payload (nlmsgerr t)
  nlmsgerr_laws = record {
    IsValid = IsValid;
    bytes = bytes;
    after = rest_of;
    length_bytes = length-bytes;
    writes = serialize-Writes;
    reads = λ self v. deserialize-Reads self (some (Nlmsgerr.size t self)) v;
  }
