-- ===== src/Examples/RouteList/Lookup.antt =====
-- examples/route-list.rs: which attributes give the addresses of a route.
use neli.Base.{ℕ, ◌≡◌, ◌≢◌, refl, ◌∙◌, arith, ◌==◌, Bool, true, false, if◌then◌else◌}
use neli.Base.{Option, none, some, List, [], ◌∷◌, length, inl, inr, Bool-cases}
use neli.Consts.Rtnl.Attrs.{Rta}
use neli.Rtnl.Rtattr.{Rtattr}
use neli.Examples.RouteList.{IpAddr, v4, v6, Addresses, to_addr, noted, addresses}

abbrev pub is_dst : Rta → Bool
is_dst Rta.dst = true
is_dst other = false

abbrev pub is_prefsrc : Rta → Bool
is_prefsrc Rta.prefsrc = true
is_prefsrc other = false

abbrev pub is_gateway : Rta → Bool
is_gateway Rta.gateway = true
is_gateway other = false

-- The payloads of the attributes of a type.
abbrev pub payloads : (Rta → Bool) → List (Rtattr Rta (List ℕ)) → List (List ℕ)
payloads is [] = []
payloads is (attr ∷ attrs) =
    let rest = payloads is attrs in if is attr.rta_type then attr.rta_payload ∷ rest else rest

-- The address that some bytes hold: of version 4 where they are 4, of version 6 where they are 16, and
-- else none.
pub record IsAddressOf (bytes : List ℕ) (found : Option IpAddr) : Type 0 where
  pub of_4 : length bytes ≡ 4 → found ≡ some (v4 bytes)
  pub of_16 : length bytes ≡ 16 → found ≡ some (v6 bytes)
  pub of_other : length bytes ≢ 4 → length bytes ≢ 16 → found ≡ none

-- The address that the last of some payloads holds.
abbrev pub IsLastAddress : List (List ℕ) → Option IpAddr → Type 0
IsLastAddress [] found = found ≡ none
IsLastAddress (payload ∷ []) found = IsAddressOf payload found
IsLastAddress (payload ∷ next ∷ rest) found = IsLastAddress (next ∷ rest) found

to_addr-IsAddressOf : (bytes : List ℕ) → IsAddressOf bytes (to_addr bytes)
unfolding to_addr
to_addr-IsAddressOf bytes = record {
  of_4 = λ four. rw four refl;
  of_16 = λ sixteen. rw sixteen refl;
  of_other = λ not_4 not_16. rw (differs not_4, differs not_16) refl;
}
  where
    differs : {n m : ℕ} → n ≢ m → (n == m) ≡ false
    differs other = ground arith

unfoldable last_or : Option IpAddr → List (List ℕ) → Option IpAddr
last_or before [] = before
last_or before (payload ∷ rest) = last_or (to_addr payload) rest

last_or-IsLastAddress : (xs : List (List ℕ)) → IsLastAddress xs (last_or none xs)
unfolding last_or
last_or-IsLastAddress [] = refl
last_or-IsLastAddress (x ∷ []) = to_addr-IsAddressOf x
last_or-IsLastAddress (x ∷ y ∷ rest) = last_or-IsLastAddress (y ∷ rest)

noted-dst :
    (ty : Rta) (addr : Option IpAddr) (found : Addresses)
    → (noted ty addr found).dst ≡ (if is_dst ty then addr else found.dst)
noted-dst Rta.dst addr found = refl
noted-dst Rta.prefsrc addr found = refl
noted-dst Rta.gateway addr found = refl
noted-dst other addr found = refl

noted-src :
    (ty : Rta) (addr : Option IpAddr) (found : Addresses)
    → (noted ty addr found).src ≡ (if is_prefsrc ty then addr else found.src)
noted-src Rta.dst addr found = refl
noted-src Rta.prefsrc addr found = refl
noted-src Rta.gateway addr found = refl
noted-src other addr found = refl

noted-gateway :
    (ty : Rta) (addr : Option IpAddr) (found : Addresses)
    → (noted ty addr found).gateway ≡ (if is_gateway ty then addr else found.gateway)
noted-gateway Rta.dst addr found = refl
noted-gateway Rta.prefsrc addr found = refl
noted-gateway Rta.gateway addr found = refl
noted-gateway other addr found = refl

module _ (is : Rta → Bool) (field : Addresses → Option IpAddr)
    (step : (ty : Rta) (addr : Option IpAddr) (found : Addresses)
      → field (noted ty addr found) ≡ (if is ty then addr else field found)) where
  field-addresses :
      (found : Addresses) (attrs : List (Rtattr Rta (List ℕ)))
      → field (addresses found attrs) ≡ last_or (field found) (payloads is attrs)
  unfolding addresses last_or
  field-addresses found [] = refl
  field-addresses found (attr ∷ attrs) =
      let addr = to_addr attr.rta_payload in
      let later = field-addresses (noted attr.rta_type addr found) attrs in
      let here = step attr.rta_type addr found in
      elim (Bool-cases (is attr.rta_type)) [
        | inl same ↦ rw same (later ∙ rw (here, same) refl)
        | inr other ↦ rw other (later ∙ rw (here, other) refl)
      ]

-- The destination, the source and the gateway of a route are each the address that the last attribute of
-- the type `Dst`, `Prefsrc` or `Gateway` holds: of version 4 where that is of 4 bytes, of version 6 where
-- it is of 16, and none where it is of another number of bytes or where there is no such attribute,
-- whatever the attributes before it hold.
pub addresses-IsLastAddress :
    (attrs : List (Rtattr Rta (List ℕ)))
    → let found = addresses (record { src = none; dst = none; gateway = none }) attrs in
      IsLastAddress (payloads is_dst attrs) found.dst
      × IsLastAddress (payloads is_prefsrc attrs) found.src
      × IsLastAddress (payloads is_gateway attrs) found.gateway
addresses-IsLastAddress attrs =
    let before : Addresses = record { src = none; dst = none; gateway = none } in
    (
      rw (field-addresses is_dst (λ a. a.dst) noted-dst before attrs)
          (last_or-IsLastAddress (payloads is_dst attrs)),
      rw (field-addresses is_prefsrc (λ a. a.src) noted-src before attrs)
          (last_or-IsLastAddress (payloads is_prefsrc attrs)),
      rw (field-addresses is_gateway (λ a. a.gateway) noted-gateway before attrs)
          (last_or-IsLastAddress (payloads is_gateway attrs)),
    )
