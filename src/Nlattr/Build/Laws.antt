-- ===== src/Nlattr/Build/Laws.antt =====
-- What is built is well formed, holds the payload's bytes, and reads back as the payload.
use neli.Base.{ℕ, ◌+◌, ◌%◌, ◌^◌, ◌<◌, ◌≡◌, ap, ◌∙◌, arith, lt→ltb}
use neli.Base.{Option, none, some, List, [], ◌++◌, length, drop, take}
use neli.Base.{append-nil, drop_nil, take-append_length, drop-append_length}
use neli.Outcome.{ok, ◌>>=◌}
use neli.Buffering.{Libc, Buffering}
use neli.Nl.{Nl, WritesBuffer}
use neli.Nl.Runs.{Reads, Writes}
use neli.Nl.Laws.{Fixed, Payload, vec_laws}
use neli.Nlattr
use neli.Nlattr.{Nlattr}
use neli.Nlattr.RoundTrip
use neli.Nlattr.RoundTrip.{IsValid, serialize-Writes, length-bytes, IsValid-IsSmall}
use neli.Nlattr.Build.{set_payload, new, add_nested_attribute, get_payload_as}

module _ ⦃b : Buffering⦄ where
  -- The buffer over a payload, with the payload's length as the hint.
  pub payload_buffer :
      (xs : List ℕ)
      → b.set_size_hint (length xs) (b.new_read xs) ≡ b.reader [] xs (some (length xs))
  payload_buffer xs = rw (b.new_read_lem xs) (b.set_size_hint_lem [] xs none (length xs))

  -- Over an empty vector the contents are what was written.
  pub contents-Writes :
      {m : WritesBuffer Unit} {xs : List ℕ}
      → Writes m xs
      → m (b.new_growable_ref []) ≡ (ok tt, b.writer xs [] none)
  contents-Writes {xs} wm =
      rw (b.new_growable_ref_lem []) (wm.at [] [] ∙ rw (drop_nil {A = ℕ} (length xs)))

take_all : (xs : List ℕ) → take (length xs) xs ≡ xs
take_all xs = rw append-nil at (take-append_length xs [])

drop_all : (xs : List ℕ) → drop (length xs) xs ≡ []
drop_all xs = rw append-nil at (drop-append_length xs [])

module _ ⦃c : Libc⦄ ⦃b : Buffering⦄ {T P : Type 0} (t : Nl T) (p : Nl P) where
  -- The same for a payload that is written but not read back.
  pub new-Writes :
      (nla_len : Option ℕ) (ty : T) (payload : P) (xs : List ℕ)
      → Writes (p.serialize payload) xs
      → new t p nla_len ty payload
        ≡ ok (record {
          nla_len = (2 + t.size ty + p.size payload) % 2 ^ 16;
          nla_type = ty;
          payload = xs;
        })
  unfolding new set_payload ◌>>=◌
  new-Writes nla_len ty payload xs writes =
      rw (contents-Writes writes) (rw (b.contents_lem xs [] none) (rw append-nil))

module _ ⦃c : Libc⦄ ⦃b : Buffering⦄ {T P : Type 0} {t : Nl T} {p : Nl P} {w : ℕ} (tl : Fixed t w)
    (pl : Payload p) where
  -- The attribute that `new` makes of a payload.
  unfoldable pub made : T → P → Nlattr T (List ℕ)
  made ty payload = record {
    nla_len = (2 + t.size ty + p.size payload) % 2 ^ 16;
    nla_type = ty;
    payload = pl.bytes payload;
  }

  -- For a valid payload `set_payload` succeeds and puts the true length of the attribute, in 16 bits,
  -- in the length field. The payload's bytes go over the front of the old payload, and what of it is
  -- longer stays behind them.
  pub set_payload_lem :
      (payload : P) (self : Nlattr T (List ℕ))
      → pl.IsValid payload
      → set_payload t p payload self ≡ (
        ok tt,
        record {
          nla_len = (2 + t.size self.nla_type + p.size payload) % 2 ^ 16;
          nla_type = self.nla_type;
          payload = pl.bytes payload ++ drop (length (pl.bytes payload)) self.payload;
        },
      )
  unfolding set_payload ◌>>=◌
  set_payload_lem payload self v = rw (b.new_growable_ref_lem self.payload) (
      rw ((pl.writes payload v).at [] self.payload) (
        rw
          (b.contents_lem (pl.bytes payload) (drop (length (pl.bytes payload)) self.payload) none)))

  -- Whatever length is asked for, `new` succeeds with the payload's bytes and their true length.
  pub new_lem :
      (nla_len : Option ℕ) (ty : T) (payload : P)
      → pl.IsValid payload
      → new t p nla_len ty payload ≡ ok (made ty payload)
  unfolding new set_payload made ◌>>=◌
  new_lem nla_len ty payload v =
      rw (contents-Writes (pl.writes payload v))
        (rw (b.contents_lem (pl.bytes payload) [] none) (rw append-nil))

  pub made-IsValid :
      (ty : T) (payload : P)
      → tl.IsValid ty
      → pl.IsValid payload
      → 2 + w + p.size payload < 2 ^ 16
      → IsValid tl vec_laws (made ty payload)
  unfolding made Nlattr.size
  made-IsValid ty payload v pv fits = record {
    len_is_size = omega (arith, tl.sized ty, pl.length_bytes payload pv);
    len_fits = omega arith;
    type_IsValid = v;
    payload_IsValid = tt;
  }

  pub get_payload_as-made :
      (ty : T) (payload : P)
      → pl.IsValid payload
      → get_payload_as t p (made ty payload) ≡ ok payload
  unfolding get_payload_as made Nlattr.payload_size
  get_payload_as-made ty payload v =
      ap (λ (q : b.ReadBuffer). (p.deserialize q).0) (payload_buffer (pl.bytes payload))
      ∙ rw (pl.length_bytes payload v) (ap (λ q. q.0) whole)
    where
      whole :
          p.deserialize (b.reader [] (pl.bytes payload) (some (p.size payload)))
          ≡ (ok payload, b.reader (pl.bytes payload) [] (pl.after payload))
      whole = rw append-nil at ((pl.reads payload v).at [] [])

  -- For a valid payload `new` succeeds, whatever length is asked for, and reading the payload of the
  -- attribute that it makes gives what it was made from.
  pub get_payload_as-new :
      (nla_len : Option ℕ) (ty : T) (payload : P)
      → pl.IsValid payload
      → (attr : Nlattr T (List ℕ)) × (new t p nla_len ty payload ≡ ok attr)
        × (get_payload_as t p attr ≡ ok payload)
  get_payload_as-new nla_len ty payload v =
      (made ty payload, new_lem nla_len ty payload v, get_payload_as-made ty payload v)

module _ ⦃c : Libc⦄ ⦃b : Buffering⦄ {T TT P : Type 0} {t : Nl T} {tt' : Nl TT} {p : Nl P} {w w' : ℕ}
    (tl : Fixed t w) (tl' : Fixed tt' w') (pl : Payload p) where
  -- The attribute with one more nested in it.
  unfoldable pub nested : Nlattr TT P → Nlattr T (List ℕ) → Nlattr T (List ℕ)
  nested attr self = record {
    nla_len = self.nla_len + Nlattr.asize tt' p attr;
    nla_type = self.nla_type;
    payload = self.payload ++ RoundTrip.bytes tl' pl attr;
  }

  -- Adding a well-formed nested attribute, where the length that results fits 16 bits, puts its bytes,
  -- padding included, at the end of the payload, and their number on the length.
  pub add_nested_attribute_lem :
      (attr : Nlattr TT P) (self : Nlattr T (List ℕ))
      → IsValid tl' pl attr
      → self.nla_len + Nlattr.asize tt' p attr < 2 ^ 16
      → add_nested_attribute t tt' p attr self ≡ (ok tt, nested attr self)
  unfolding add_nested_attribute nested Nlattr.payload_size ◌>>=◌
  add_nested_attribute_lem attr self v fits =
      let xs = self.payload in
      rw (b.new_growable_ref_lem xs) (
        rw (b.set_position_lem (length xs) [] xs none (omega arith)) (
          rw (take_all xs, drop_all xs)
            (rw
              ((serialize-Writes tl' pl attr v.payload_IsValid (IsValid-IsSmall tl' pl attr v)).at
                xs [])
              (rw (drop_nil {A = ℕ} (length (RoundTrip.bytes tl' pl attr))) (
                rw (b.contents_lem (xs ++ RoundTrip.bytes tl' pl attr) [] none)
                  (rw append-nil (rw small (rw (lt→ltb _ _ fits)))))))))
    where
      small : Nlattr.asize tt' p attr % 2 ^ 16 ≡ Nlattr.asize tt' p attr
      small = omega arith

module _ ⦃c : Libc⦄ ⦃b : Buffering⦄ {T R : Type 0} (t : Nl T) (r : Nl R) where
  -- A payload that starts with what is read.
  pub get_payload_as-Reads :
      (attr : Nlattr T (List ℕ)) (xs rest : List ℕ) (value : R) (left : Option ℕ)
      → attr.payload ≡ xs ++ rest
      → Reads r.deserialize (some (length attr.payload)) xs value left
      → get_payload_as t r attr ≡ ok value
  unfolding get_payload_as Nlattr.payload_size
  get_payload_as-Reads attr xs rest value left holds read =
      ap (λ (q : b.ReadBuffer). (r.deserialize q).0)
        (payload_buffer attr.payload ∙ ap (λ l. b.reader [] l (some (length attr.payload))) holds)
      ∙ ap (λ q. q.0) (read.at [] rest)
