-- ===== src/Nlmsghdr/RoundTrip.antt =====
-- What a well-formed message is on the wire, and that it reads back.
use neli.Base.{ℕ, ◌+◌, ◌-◌, ◌^◌, ◌≤◌, ◌<◌, ◌≡◌, refl, arith, le→leb}
use neli.Base.{Option, none, some, List, [], ◌++◌, length, length-append, length-replicate}
use neli.Outcome.{ok, checked_sub, ok_or}
use neli.Err.{de_error}
use neli.Buffering.{Libc, Buffering}
use neli.Nl.{Nl}
use neli.Nl.Runs.{
  Writes, Reads, Writes-then, Writes-last, Writes-nil, Reads-bind, Reads-last, Reads-pure,
  Reads-silent,
}
use neli.Nl.Uint.{Writes-uint, Reads-uint}
use neli.Nl.Padding.{IsSmall, padding, length-padding, Writes-pad, Reads-strip}
use neli.Nl.Laws.{Fixed, Payload}
use neli.Consts.Messages.{NlmF, nlm_f, nlm_f_into}
use neli.Flags.{fold_flags, flags_from}
use neli.Flags.Laws.{AreFlags, fold_flags_fits, flags_from-fold_flags}
use neli.Nlattr.Build.{unwrap_or}
use neli.Nlmsghdr
use neli.Nlmsghdr.{Nlmsghdr, NlEmpty, nl_empty, empty, short_packet}

module _ ⦃c : Libc⦄ ⦃b : Buffering⦄ {T P : Type 0} {t : Nl T} {p : Nl P} (tl : Fixed t 2)
    (pl : Payload p) where
  pub record IsValid (self : Nlmsghdr T P) : Type 0 where
    pub len_is_size : self.nl_len ≡ Nlmsghdr.size t p self
    pub len_fits : self.nl_len < 2 ^ 32
    pub type_IsValid : tl.IsValid self.nl_type
    pub flags_AreFlags : AreFlags nlm_f 16 self.nl_flags
    pub seq_fits : self.nl_seq < 2 ^ 32
    pub pid_fits : self.nl_pid < 2 ^ 32
    pub payload_IsValid : pl.IsValid self.nl_payload

  unfoldable pub bytes : Nlmsghdr T P → List ℕ
  bytes self =
      b.encode 4 self.nl_len
      ++ (tl.bytes self.nl_type
          ++ (b.encode 2 (fold_flags nlm_f_into 0 self.nl_flags)
              ++ (b.encode 4 self.nl_seq
                  ++ (b.encode 4 self.nl_pid
                      ++ (pl.bytes self.nl_payload ++ padding (Nlmsghdr.size t p self))))))

  pub size_lem : (self : Nlmsghdr T P) → Nlmsghdr.size t p self ≡ 16 + p.size self.nl_payload
  unfolding Nlmsghdr.size
  size_lem self = rw (tl.sized self.nl_type)

  pub IsValid-IsSmall : (self : Nlmsghdr T P) → IsValid self → IsSmall (Nlmsghdr.size t p self)
  IsValid-IsSmall self v = omega arith

  pub serialize-Writes :
      (self : Nlmsghdr T P)
      → pl.IsValid self.nl_payload
      → IsSmall (Nlmsghdr.size t p self)
      → Writes (Nlmsghdr.serialize t p self) (bytes self)
  unfolding Nlmsghdr.serialize bytes
  serialize-Writes self pv small = Writes-then _ _ (Writes-uint 4 self.nl_len) (
      Writes-then _ _ (tl.writes self.nl_type) (
        Writes-then _ _ (Writes-uint 2 (fold_flags nlm_f_into 0 self.nl_flags)) (
          Writes-then _ _ (Writes-uint 4 self.nl_seq) (
            Writes-then _ _ (Writes-uint 4 self.nl_pid) (
              Writes-then _ _ (pl.writes self.nl_payload pv)
                (Writes-last _ (Writes-pad (Nlmsghdr.size t p self) small)))))))

  -- A header whose numbers fit. The length is that of a header or more, whatever the payload has.
  pub record IsHeader (self : Nlmsghdr T P) : Type 0 where
    pub len_covers : 16 ≤ self.nl_len
    pub len_fits : self.nl_len < 2 ^ 32
    pub type_IsValid : tl.IsValid self.nl_type
    pub flags_AreFlags : AreFlags nlm_f 16 self.nl_flags
    pub seq_fits : self.nl_seq < 2 ^ 32
    pub pid_fits : self.nl_pid < 2 ^ 32

  IsValid-IsHeader : (self : Nlmsghdr T P) → IsValid self → IsHeader self
  IsValid-IsHeader self v = record {
    len_covers = omega (arith, size_lem self);
    len_fits = v.len_fits;
    type_IsValid = v.type_IsValid;
    flags_AreFlags = v.flags_AreFlags;
    seq_fits = v.seq_fits;
    pid_fits = v.pid_fits;
  }

  -- The payload's length, as `deserialize` finds it.
  payload_len :
      (self : Nlmsghdr T P) (h : Option ℕ)
      → IsHeader self
      → (f r : List ℕ)
      → ok_or
          (checked_sub self.nl_len (4 + t.size self.nl_type + 2 + 4 + 4))
          (de_error short_packet)
          (b.reader f r h)
        ≡ (ok (self.nl_len - 16), b.reader f r h)
  payload_len self h v f r =
      let enough : 4 + t.size self.nl_type + 2 + 4 + 4 ≤ self.nl_len =
        omega (arith, tl.sized self.nl_type) in
      let left : self.nl_len - (4 + t.size self.nl_type + 2 + 4 + 4) ≡ self.nl_len - 16 =
        omega (arith, tl.sized self.nl_type) in
      rw (le→leb _ _ enough) (rw left)

  -- A header and a payload that reads with the rest of the length as its hint.
  pub header-Reads :
      (self : Nlmsghdr T P) (h after : Option ℕ)
      → IsHeader self
      → IsSmall (Nlmsghdr.size t p self)
      → Reads p.deserialize
          (some (self.nl_len - 16))
          (pl.bytes self.nl_payload)
          self.nl_payload
          after
      → Reads (Nlmsghdr.deserialize t p) h (bytes self) self after
  unfolding Nlmsghdr.deserialize bytes
  header-Reads self h after v small payload =
      Reads-bind _ _ (Reads-uint 4 self.nl_len h v.len_fits) (
        Reads-bind _ _ (tl.reads self.nl_type h v.type_IsValid) (
          Reads-bind _ _ (Reads-uint 2 (fold_flags nlm_f_into 0 self.nl_flags) h flags_fit) (
            Reads-bind _ _ (Reads-uint 4 self.nl_seq h v.seq_fits) (
              Reads-bind _ _ (Reads-uint 4 self.nl_pid h v.pid_fits) (
                Reads-silent _ _ (self.nl_len - 16) (payload_len self h v) (
                  Reads-silent _ _ tt (λ f r. rw (b.set_size_hint_lem f r h (self.nl_len - 16)))
                    (Reads-bind _ _ payload (
                      rw same_flags (
                        Reads-last _ _
                          (Reads-strip (Nlmsghdr.size t p self) small after _ (
                            length-replicate {A = ℕ}
                              (Nlmsghdr.asize t p self - Nlmsghdr.size t p self) 0))
                          (Reads-pure self))))))))))
    where
      flags_fit : fold_flags nlm_f_into 0 self.nl_flags < 256 ^ 2
      flags_fit = fold_flags_fits nlm_f (λ _. refl) 16 self.nl_flags v.flags_AreFlags

      same_flags : flags_from nlm_f 16 0 (fold_flags nlm_f_into 0 self.nl_flags) ≡ self.nl_flags
      same_flags = flags_from-fold_flags nlm_f (λ _. refl) 16 self.nl_flags v.flags_AreFlags

  -- A well-formed message reads back, whatever the hint and whatever follows.
  pub deserialize-Reads :
      (self : Nlmsghdr T P) (h : Option ℕ)
      → IsValid self
      → Reads (Nlmsghdr.deserialize t p) h (bytes self) self (pl.after self.nl_payload)
  deserialize-Reads self h v =
      let rest : self.nl_len - 16 ≡ p.size self.nl_payload = omega (arith, size_lem self) in
      header-Reads self h (pl.after self.nl_payload) (IsValid-IsHeader self v)
        (IsValid-IsSmall self v) (rw rest (pl.reads self.nl_payload v.payload_IsValid))

  pub length-bytes_small :
      (self : Nlmsghdr T P)
      → pl.IsValid self.nl_payload
      → IsSmall (Nlmsghdr.size t p self)
      → length (bytes self) ≡ Nlmsghdr.asize t p self
  unfolding bytes
  length-bytes_small self pv small =
      let word = b.encode 2 (fold_flags nlm_f_into 0 self.nl_flags) in
      let end = pl.bytes self.nl_payload ++ padding (Nlmsghdr.size t p self) in
      let ids = b.encode 4 self.nl_seq ++ (b.encode 4 self.nl_pid ++ end) in
      omega (
        arith,
        length-append (b.encode 4 self.nl_len) (tl.bytes self.nl_type ++ (word ++ ids)),
        length-append (tl.bytes self.nl_type) (word ++ ids),
        length-append word ids,
        length-append (b.encode 4 self.nl_seq) (b.encode 4 self.nl_pid ++ end),
        length-append (b.encode 4 self.nl_pid) end,
        length-append (pl.bytes self.nl_payload) (padding (Nlmsghdr.size t p self)),
        b.length-encode 4 self.nl_len,
        tl.length_bytes self.nl_type,
        b.length-encode 2 (fold_flags nlm_f_into 0 self.nl_flags),
        b.length-encode 4 self.nl_seq,
        b.length-encode 4 self.nl_pid,
        pl.length_bytes self.nl_payload pv,
        length-padding (Nlmsghdr.size t p self) small,
        size_lem self,
      )

  pub length-bytes :
      (self : Nlmsghdr T P) → IsValid self → length (bytes self) ≡ Nlmsghdr.asize t p self
  length-bytes self v = length-bytes_small self v.payload_IsValid (IsValid-IsSmall self v)

  -- A message whose length field is its true length, whose numbers and type fit, whose flags are those
  -- of a 16-bit word in order and whose payload is valid is written as the bytes of its fields, the
  -- payload and the padding, `asize` in number; and from those bytes it reads back, whatever the hint
  -- and whatever follows.
  pub nlmsghdr_round_trip :
      (self : Nlmsghdr T P) (h : Option ℕ)
      → IsValid self
      → Writes (Nlmsghdr.serialize t p self) (bytes self)
        × (length (bytes self) ≡ Nlmsghdr.asize t p self)
        × Reads (Nlmsghdr.deserialize t p) h (bytes self) self (pl.after self.nl_payload)
  nlmsghdr_round_trip self h v = (
    serialize-Writes self v.payload_IsValid (IsValid-IsSmall self v),
    length-bytes self v,
    deserialize-Reads self h v,
  )

  -- A message that `new` makes without a length, of a valid type and payload, of flags of a 16-bit
  -- word in order, of numbers that fit and of a size that fits 32 bits, is well formed.
  pub new-IsValid :
      (ty : T) (flags : List NlmF) (seq pid : Option ℕ) (payload : P)
      → tl.IsValid ty
      → AreFlags nlm_f 16 flags
      → unwrap_or seq 0 < 2 ^ 32
      → unwrap_or pid 0 < 2 ^ 32
      → pl.IsValid payload
      → 16 + p.size payload < 2 ^ 32
      → IsValid (Nlmsghdr.new t p none ty flags seq pid payload)
  unfolding Nlmsghdr.new Nlmsghdr.size
  new-IsValid ty flags seq pid payload tv fv sv pv lv small = record {
    len_is_size = omega (arith, tl.sized ty);
    len_fits = omega arith;
    type_IsValid = tv;
    flags_AreFlags = fv;
    seq_fits = sv;
    pid_fits = pv;
    payload_IsValid = lv;
  }

module _ ⦃c : Libc⦄ ⦃b : Buffering⦄ where
  -- Whatever the hint is, and it is left.
  pub empty-Reads : (nl : NlEmpty) (h : Option ℕ) → Reads empty.deserialize h [] nl h
  empty-Reads nl_empty h = Reads-pure nl_empty

  abbrev pub empty_laws : Payload empty
  empty_laws = record {
    IsValid = λ _. Unit;
    bytes = λ _. [];
    after = λ _. some 0;
    length_bytes = λ _ _. refl;
    writes = λ _ _. Writes-nil;
    reads = λ nl _. empty-Reads nl (some 0);
  }
