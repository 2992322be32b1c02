-- ===== src/Nlattr.antt =====
-- src/nlattr.rs: attributes, lists of attributes, and handles. The dictionaries `t` and `p` are the
-- implementations of `Nl` for the type parameters.
pub mod RoundTrip
pub mod Lists
pub mod AnyBytes
pub mod Total
pub mod Build
pub mod Handle
pub mod Errors
mod Slices
use neli.Base.{ℕ, zero, suc, ◌+◌, ◌-◌, ◌%◌, ◌^◌, ◌≡◌, leb, ltb, if◌then◌else◌, Bool, true, false}
use neli.Base.{Option, none, some, List, [], ◌∷◌, ◌++◌, length, String}
use neli.Outcome.{
  Result, Exec, pure, throw, abort, ◌>>=◌, ◌>>◌, sub_or_panic, checked_sub, ok_or, lift,
}
use neli.Outcome.{map_err, ok, err, panic, out_of_fuel}
use neli.Err.{SerError, DeError, de_error, NlError, msg, nl_of_de}
use neli.Buffering.{Libc, Buffering}
use neli.Nl.{Nl, WritesBuffer, ReadsBuffer, alignto, pad, strip, take_hint, give_hint}
use neli.Nl.Uint.{u16}
use neli.Nl.Bytes.{vec_u8}

pub record Nlattr (T P : Type 0) : Type 0 where
  pub nla_len : ℕ
  pub nla_type : T
  pub payload : P

module _ ⦃b : Buffering⦄ where
  -- The test of the `while`: `size_hint > Some(0) || (size_hint == None && !mem.at_end())`
  abbrev pub goes_on : Option ℕ → b.ReadBuffer → Bool
  goes_on (some n) mem = ltb 0 n
  goes_on none mem = if b.at_end mem then false else true

  -- What an attribute takes off the hint.
  abbrev pub hint_left : Option ℕ → ℕ → ReadsBuffer (Option ℕ)
  hint_left none taken = pure none
  hint_left (some val) taken =
      if ltb 0 val
      then (do
        result ←
            ok_or (checked_sub val taken)
              (de_error "Deserialization read passed the end of the specified buffer")
        pure (some result))
      else pure (some val)

  abbrev pub loop_fuel : Option ℕ → b.ReadBuffer → ℕ
  loop_fuel (some n) mem = suc n
  loop_fuel none mem = suc (b.left mem)

module _ ⦃c : Libc⦄ ⦃b : Buffering⦄ {T P : Type 0} (t : Nl T) (p : Nl P) where
  pub payload_size : Nlattr T P → ℕ
  payload_size self = p.size self.payload

  unfoldable pub size : Nlattr T P → ℕ
  size self = u16.size self.nla_len + t.size self.nla_type + p.size self.payload

  abbrev pub asize : Nlattr T P → ℕ
  asize self = alignto (size self)

  pub serialize : Nlattr T P → WritesBuffer Unit
  serialize self = do
    u16.serialize self.nla_len
    t.serialize self.nla_type
    p.serialize self.payload
    pad (size self) (asize self)
    pure tt

  -- `nla_len as usize - (…)` panics when the length is less than that of the header.
  pub deserialize : ReadsBuffer (Nlattr T P)
  deserialize = do
    nla_len ← u16.deserialize
    nla_type ← t.deserialize
    hint ← sub_or_panic nla_len (u16.size nla_len + t.size nla_type)
    give_hint hint
    payload ← p.deserialize
    let nla : Nlattr T P = record { nla_len = nla_len; nla_type = nla_type; payload = payload }
    strip (size nla) (asize nla)
    pure nla

  abbrev pub nlattr : Nl (Nlattr T P)
  nlattr = record { serialize = serialize; deserialize = deserialize; size = size; asize = asize }

  -- `Vec<Nlattr<T, P>>`
  pub serialize_all : List (Nlattr T P) → WritesBuffer Unit
  serialize_all [] = pure tt
  serialize_all (item ∷ items) = serialize item >> serialize_all items

  unfoldable pub asize_all : List (Nlattr T P) → ℕ
  asize_all [] = 0
  asize_all (attr ∷ attrs) = asize attr + asize_all attrs

  -- The loop, on fuel: a round takes at least the 4 bytes of a header off the hint or the buffer.
  pub deserialize_loop : ℕ → Option ℕ → ReadsBuffer (List (Nlattr T P))
  deserialize_loop zero size_hint mem = (out_of_fuel, mem)
  deserialize_loop (suc fuel) size_hint mem =
      let more =
        (do
          next ← deserialize
          size_hint' ← hint_left size_hint (asize next)
          rest ← deserialize_loop fuel size_hint'
          pure (next ∷ rest))
          mem in
      if goes_on size_hint mem then more else (ok [], mem)

  pub deserialize_all : ReadsBuffer (List (Nlattr T P))
  deserialize_all = do
    size_hint ← take_hint
    λ mem. deserialize_loop (loop_fuel size_hint mem) size_hint mem

  abbrev pub nlattrs : Nl (List (Nlattr T P))
  nlattrs = record {
    serialize = serialize_all;
    deserialize = deserialize_all;
    size = asize_all;
    asize = asize_all;
  }

-- `&[Nlattr<T, Vec<u8>>]`, whose `size` is `unimplemented!` too
module _ ⦃c : Libc⦄ ⦃b : Buffering⦄ {T : Type 0} (t : Nl T) where
  unfoldable pub serialize_slice : List (Nlattr T (List ℕ)) → WritesBuffer Unit
  serialize_slice [] = pure tt
  serialize_slice (item ∷ items) = serialize t vec_u8 item >> serialize_slice items

  unfoldable pub deserialize_slice : ReadsBuffer (List (Nlattr T (List ℕ)))
  deserialize_slice = abort

  unfoldable pub asize_slice : List (Nlattr T (List ℕ)) → ℕ
  asize_slice [] = 0
  asize_slice (attr ∷ attrs) = asize t vec_u8 attr + asize_slice attrs
