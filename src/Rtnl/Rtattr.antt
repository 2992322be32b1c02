-- ===== src/Rtnl/Rtattr.antt =====
-- src/rtnl.rs: `Rtattr` and `Rtattrs`. Unlike `Nlattr`, a length below that of the header is an
-- error, the list needs a hint, and `get_payload_as` gives none.
pub mod RoundTrip
pub mod Lists
pub mod Errors
pub mod Total
use neli.Base.{
  ℕ, zero, suc, ◌+◌, ltb, if◌then◌else◌, Bool, Option, none, some, List, [], ◌∷◌, String,
}
use neli.Base.Decimal.{decimal, ◌<>◌}
use neli.Outcome.{Result, ok, out_of_fuel, pure, map_err, bind, ◌>>=◌, ◌>>◌, checked_sub, ok_or}
use neli.Err.{DeError, de_error}
use neli.Buffering.{Libc, Buffering}
use neli.Nl.{Nl, WritesBuffer, ReadsBuffer, alignto, pad, strip, take_hint, give_hint}
use neli.Nl.Uint.{u16}

pub record Rtattr (T P : Type 0) : Type 0 where
  pub rta_len : ℕ
  pub rta_type : T
  pub rta_payload : P

abbrev pub invalid_size : ℕ → DeError
invalid_size rta_len = de_error (◌<>◌ "Invalid size while reading Rtattr: " (decimal rta_len))

abbrev pub overflowed : ℕ → ℕ → DeError
overflowed size hint =
    de_error
      (◌<>◌ "Rtattr size " (◌<>◌ (decimal size) (◌<>◌ " overflowed buffer size " (decimal hint))))

module _ ⦃c : Libc⦄ ⦃b : Buffering⦄ {T P : Type 0} (t : Nl T) (p : Nl P) where
  unfoldable pub payload_size : Rtattr T P → ℕ
  payload_size self = p.size self.rta_payload

  unfoldable pub size : Rtattr T P → ℕ
  size self = u16.size self.rta_len + t.size self.rta_type + p.size self.rta_payload

  abbrev pub asize : Rtattr T P → ℕ
  asize self = alignto (size self)

  pub serialize : Rtattr T P → WritesBuffer Unit
  serialize self = do
    u16.serialize self.rta_len
    t.serialize self.rta_type
    p.serialize self.rta_payload
    pad (size self) (asize self)
    pure tt

  pub deserialize : ReadsBuffer (Rtattr T P)
  deserialize = do
    rta_len ← u16.deserialize
    rta_type ← t.deserialize
    hint ← ok_or (checked_sub rta_len (u16.size rta_len + t.size rta_type)) (invalid_size rta_len)
    give_hint hint
    rta_payload ← p.deserialize
    let rtattr : Rtattr T P = record {
      rta_len = rta_len;
      rta_type = rta_type;
      rta_payload = rta_payload;
    }
    strip (size rtattr) (asize rtattr)
    pure rtattr

  abbrev pub rtattr : Nl (Rtattr T P)
  rtattr = record { serialize = serialize; deserialize = deserialize; size = size; asize = asize }

-- `Rtattrs` wraps the vector.
pub record Rtattrs (T P : Type 0) : Type 0 where
  pub items : List (Rtattr T P)

module _ {T P : Type 0} where
  abbrev pub empty : Rtattrs T P
  empty = record { items = [] }

  abbrev pub new : List (Rtattr T P) → Rtattrs T P
  new vec = record { items = vec }

  abbrev pub iter : Rtattrs T P → List (Rtattr T P)
  iter self = self.items

  abbrev pub into_iter : Rtattrs T P → List (Rtattr T P)
  into_iter self = self.items

module _ ⦃c : Libc⦄ ⦃b : Buffering⦄ {T P : Type 0} (t : Nl T) (p : Nl P) where
  pub serialize_items : List (Rtattr T P) → WritesBuffer Unit
  serialize_items [] = pure tt
  serialize_items (item ∷ items) = serialize t p item >> serialize_items items

  unfoldable pub size_items : List (Rtattr T P) → ℕ
  size_items [] = 0
  size_items (item ∷ items) = asize t p item + size_items items

  -- The `while`, on fuel: a round takes at least the 4 bytes of a header off the hint.
  pub deserialize_loop : ℕ → ℕ → ReadsBuffer (List (Rtattr T P))
  deserialize_loop zero size_hint mem = (out_of_fuel, mem)
  deserialize_loop (suc fuel) size_hint mem =
      let more =
        (do
          attr ← deserialize t p
          size_hint' ←
              ok_or (checked_sub size_hint (asize t p attr)) (overflowed (size t p attr) size_hint)
          rest ← deserialize_loop fuel size_hint'
          pure (attr ∷ rest))
          mem in
      if ltb 0 size_hint then more else (ok [], mem)

  pub serialize_all : Rtattrs T P → WritesBuffer Unit
  unfolding serialize_items
  serialize_all self = serialize_items self.items

  pub deserialize_all : ReadsBuffer (Rtattrs T P)
  deserialize_all = do
    hint ← take_hint
    size_hint ← ok_or hint (de_error "Vec of Rtattr requires a size hint to deserialize")
    vec ← deserialize_loop (suc size_hint) size_hint
    pure (new vec)

  unfoldable pub size_all : Rtattrs T P → ℕ
  unfolding size_items
  size_all self = size_items self.items

  abbrev pub asize_all : Rtattrs T P → ℕ
  asize_all self = alignto (size_all self)

  abbrev pub rtattrs : Nl (Rtattrs T P)
  rtattrs = record {
    serialize = serialize_all;
    deserialize = deserialize_all;
    size = size_all;
    asize = asize_all;
  }

module _ ⦃b : Buffering⦄ {T R : Type 0} (r : Nl R) where
  pub get_payload_as : Rtattr T (List ℕ) → Result DeError R
  get_payload_as self = (r.deserialize (b.new_read self.rta_payload)).0

  abbrev pub position : (T → Bool) → List (Rtattr T (List ℕ)) → Option (Rtattr T (List ℕ))
  position found [] = none
  position found (x ∷ xs) = if found x.rta_type then some x else position found xs

  unfoldable pub get_attr_payload_as :
      (T → T → Bool) → Rtattrs T (List ℕ) → T → Result DeError (Option R)
  unfolding get_payload_as
  get_attr_payload_as eq self attr_type = elim (position (λ ty. eq ty attr_type) self.items) [
    | none ↦ ok none
    | some e ↦ bind (get_payload_as e) λ v. ok (some v)
  ]
