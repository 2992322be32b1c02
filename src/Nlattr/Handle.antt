-- ===== src/Nlattr/Handle.antt =====
-- src/nlattr.rs: `AttrHandle`, and the ways down to nested attributes. A mutable reference into the
-- vector is the attribute with the function that writes one back in its place.
pub mod Laws
use neli.Base.{ℕ, Bool, if◌then◌else◌, Option, none, some, List, [], ◌∷◌}
use neli.Outcome.{Result, ok, err, panic, out_of_fuel, bind, map_err}
use neli.Err.{DeError, de_error, NlError, msg, nl_of_de}
use neli.Buffering.{Libc, Buffering}
use neli.Nl.{Nl}
use neli.Nl.Bytes.{vec_u8}
use neli.Nlattr
use neli.Nlattr.{Nlattr}
use neli.Nlattr.Build.{get_payload_as}

pub data AttrHandle (T : Type 0) : Type 0 where
  owned : List (Nlattr T (List ℕ)) → AttrHandle T
  borrowed : List (Nlattr T (List ℕ)) → AttrHandle T

module _ {T : Type 0} where
  pub new : List (Nlattr T (List ℕ)) → AttrHandle T
  new vec = owned vec

  unfoldable pub new_borrowed : List (Nlattr T (List ℕ)) → AttrHandle T
  new_borrowed vec = borrowed vec

  unfoldable pub get_slice : AttrHandle T → List (Nlattr T (List ℕ))
  get_slice (owned v) = v
  get_slice (borrowed v) = v

  unfoldable pub get_vec_mut : AttrHandle T → Option (List (Nlattr T (List ℕ)))
  get_vec_mut (owned v) = some v
  get_vec_mut (borrowed v) = none

  unfoldable pub iter : AttrHandle T → List (Nlattr T (List ℕ))
  unfolding get_slice
  iter self = get_slice self

-- An attribute of a vector, with the vector that a write in its place gives.
abbrev pub Slot : Type 0 → Type 0
Slot T = Nlattr T (List ℕ) × (Nlattr T (List ℕ) → List (Nlattr T (List ℕ)))

abbrev pub past : {T : Type 0} → Nlattr T (List ℕ) → Option (Slot T) → Option (Slot T)
past item none = none
past item (some (found, put)) = some (found, λ new. item ∷ put new)

-- `eq` is `PartialEq` on the attribute types.
module _ {T : Type 0} (eq : T → T → Bool) where
  unfoldable pub find : T → List (Nlattr T (List ℕ)) → Option (Nlattr T (List ℕ))
  find t [] = none
  find t (item ∷ items) = if eq item.nla_type t then some item else find t items

  unfoldable pub get_attribute : AttrHandle T → T → Option (Nlattr T (List ℕ))
  unfolding find get_slice
  get_attribute self t = find t (get_slice self)

  pub find_mut : T → List (Nlattr T (List ℕ)) → Option (Slot T)
  find_mut t [] = none
  find_mut t (item ∷ items) =
      if eq item.nla_type t then some (item, λ new. new ∷ items) else past item (find_mut t items)

  pub get_attribute_mut : AttrHandle T → T → Option (Slot T)
  unfolding find_mut
  get_attribute_mut (owned v) t = find_mut t v
  get_attribute_mut (borrowed v) t = none

module _ ⦃c : Libc⦄ ⦃b : Buffering⦄ {T : Type 0} (t : Nl T) where
  pub size : AttrHandle T → ℕ
  unfolding get_slice
  size self = Nlattr.asize_all t vec_u8 (get_slice self)

module _ ⦃c : Libc⦄ ⦃b : Buffering⦄ {S : Type 0} (s : Nl S) where
  -- `Nlattr::get_nested_attributes`
  pub nested_of : List ℕ → Result DeError (AttrHandle S)
  unfolding new
  nested_of payload =
      bind (Nlattr.deserialize_all s vec_u8 (b.new_read payload)).0 λ vec. ok (new vec)

module _ ⦃c : Libc⦄ ⦃b : Buffering⦄ {T S : Type 0} (eq : T → T → Bool) (t : Nl T) (s : Nl S) where
  unfoldable pub get_nested_attributes : AttrHandle T → T → Result NlError (AttrHandle S)
  unfolding get_attribute nested_of
  get_nested_attributes self subattr = elim (get_attribute eq self subattr) [
    | none ↦ err (msg "Couldn't find specified attribute")
    | some attr ↦ map_err nl_of_de (nested_of s attr.payload)
  ]

module _ ⦃c : Libc⦄ ⦃b : Buffering⦄ {T R : Type 0} (eq : T → T → Bool) (t : Nl T) (r : Nl R) where
  unfoldable pub get_attr_payload_as : AttrHandle T → T → Result DeError R
  unfolding get_attribute
  get_attr_payload_as self attr = elim (get_attribute eq self attr) [
    | none ↦ err (de_error "Failed to find specified attribute")
    | some a ↦ get_payload_as t r a
  ]
