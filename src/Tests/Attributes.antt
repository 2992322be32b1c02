-- ===== src/Tests/Attributes.antt =====
-- The theorems on attributes at concrete inputs.
use neli.Base.{
  drop, ◌^◌, ◌%◌, ℕ, ◌+◌, ◌≡◌, refl, arith, none, some, List, [], ◌∷◌, ◌++◌, length, ◌==◌, ==_iff,
}
use neli.Outcome.{ok}
use neli.Nl.{alignto}
use neli.Nl.Runs.{Writes, Reads, Fails, panicking}
use neli.Nl.Uint.{u16, u32}
use neli.Nl.Bytes.{vec_u8}
use neli.Nl.Laws.{uint_laws, vec_laws, payload_of_fixed}
use neli.Nlattr
use neli.Nlattr.{Nlattr}
use neli.Nlattr.RoundTrip
use neli.Nlattr.RoundTrip.{IsValid, nlattr_round_trip}
use neli.Nlattr.Lists.{bytes_all, after_all, nlattrs_round_trip, deserialize_all_unhinted}
use neli.Nlattr.Errors.{nlattr_short}
use neli.Nl.Stops.{Stops, vec_any}
use neli.Consts.Laws.{var_any}
use neli.Nlattr.Total.{AreAttributes, nlattrs_total}
use neli.Consts.{var}
use neli.Consts.Attrs.{ctrl_attr}
use neli.Nlattr.Build
use neli.Nlattr.Build.Laws.{set_payload_lem, get_payload_as-new}
use neli.Nlattr.Handle.{owned, nested_of}
use neli.Nlattr.Handle.Laws.{get_nested_attributes-add_all, add_all, IsFirst}
use neli.Tests.Little.{little, linux, encode}

-- The attribute of `test_nl_nlattr`: a `u16` payload of 4.
abbrev four : Nlattr ℕ ℕ
four = record { nla_len = 6; nla_type = 0; payload = 4 }

four-IsValid : IsValid (uint_laws 2) (payload_of_fixed (uint_laws 2)) four
unfolding Nlattr.size
four-IsValid = omega arith

nlattr_round_trip_example :
    Writes
      (Nlattr.serialize u16 u16 four)
      (RoundTrip.bytes (uint_laws 2) (payload_of_fixed (uint_laws 2)) four)
    × (length (RoundTrip.bytes (uint_laws 2) (payload_of_fixed (uint_laws 2)) four)
        ≡ Nlattr.asize u16 u16 four)
    × Reads
        (Nlattr.deserialize u16 u16)
        none
        (RoundTrip.bytes (uint_laws 2) (payload_of_fixed (uint_laws 2)) four)
        four
        (some 2)
nlattr_round_trip_example =
    nlattr_round_trip (uint_laws 2) (payload_of_fixed (uint_laws 2)) four none four-IsValid

abbrev fours : List (Nlattr ℕ ℕ)
fours = four ∷ four ∷ []

nlattrs_round_trip_example :
    Writes
      (Nlattr.serialize_all u16 u16 fours)
      (bytes_all (uint_laws 2) (payload_of_fixed (uint_laws 2)) fours)
    × (length (bytes_all (uint_laws 2) (payload_of_fixed (uint_laws 2)) fours)
        ≡ Nlattr.asize_all u16 u16 fours)
    × Reads
        (Nlattr.deserialize_all u16 u16)
        (some (Nlattr.asize_all u16 u16 fours))
        (bytes_all (uint_laws 2) (payload_of_fixed (uint_laws 2)) fours)
        fours
        (after_all (uint_laws 2) (payload_of_fixed (uint_laws 2)) none fours)
nlattrs_round_trip_example =
    nlattrs_round_trip (uint_laws 2) (payload_of_fixed (uint_laws 2)) fours
      (four-IsValid, (four-IsValid, tt))

deserialize_all_unhinted_example :
    Nlattr.deserialize_all u16 u16
      (little.reader (9 ∷ []) (bytes_all (uint_laws 2) (payload_of_fixed (uint_laws 2)) fours) none)
    ≡ (
      ok fours,
      little.reader
          ((9 ∷ []) ++ bytes_all (uint_laws 2) (payload_of_fixed (uint_laws 2)) fours)
          []
          (after_all (uint_laws 2) (payload_of_fixed (uint_laws 2)) none fours),
    )
deserialize_all_unhinted_example =
    deserialize_all_unhinted (uint_laws 2) (payload_of_fixed (uint_laws 2)) fours (9 ∷ [])
      (four-IsValid, (four-IsValid, tt))

nlattr_short_example :
    Fails (Nlattr.deserialize u16 vec_u8) none (encode 2 3 ++ (encode 2 1 ++ [])) panicking
nlattr_short_example =
    nlattr_short vec_u8 (uint_laws 2) 3 1 none (omega arith) (omega arith) (omega arith)

get_payload_as-new_example :
    (attr : Nlattr ℕ (List ℕ)) × (Build.new u16 u32 none 1 70000 ≡ ok attr)
    × (Build.get_payload_as u16 u32 attr ≡ ok 70000)
get_payload_as-new_example =
    get_payload_as-new (uint_laws 2) (payload_of_fixed (uint_laws 4)) none 1 70000 (omega arith)

abbrev parent : Nlattr ℕ (List ℕ)
parent = record { nla_len = 4; nla_type = 7; payload = [] }

abbrev abc : Nlattr ℕ (List ℕ)
abc = record { nla_len = 7; nla_type = 2; payload = 97 ∷ 98 ∷ 99 ∷ [] }

abbrev two : Nlattr ℕ (List ℕ)
two = record { nla_len = 6; nla_type = 1; payload = 16 ∷ 0 ∷ [] }

abc-IsValid : IsValid (uint_laws 2) vec_laws abc
unfolding Nlattr.size
abc-IsValid = omega arith

two-IsValid : IsValid (uint_laws 2) vec_laws two
unfolding Nlattr.size
two-IsValid = omega arith

abc_asize : Nlattr.asize u16 vec_u8 abc ≡ 8
unfolding Nlattr.size alignto
abc_asize = refl

both_asize : Nlattr.asize_all u16 vec_u8 (abc ∷ two ∷ []) ≡ 16
unfolding Nlattr.asize_all Nlattr.size alignto
both_asize = refl

set_payload_lem_example : Build.set_payload u16 u16 500 abc ≡ (
  ok tt,
  record {
    nla_len = (2 + 2 + 2) % 2 ^ 16;
    nla_type = 2;
    payload = encode 2 500 ++ drop (length (encode 2 500)) (97 ∷ 98 ∷ 99 ∷ []);
  },
)
set_payload_lem_example =
    set_payload_lem (uint_laws 2) (payload_of_fixed (uint_laws 2)) 500 abc (omega arith)

get_nested_attributes-add_all_example :
    ((add_all (uint_laws 2) (uint_laws 2) (abc ∷ two ∷ []) parent).0 ≡ ok tt)
    × ((add_all (uint_laws 2) (uint_laws 2) (abc ∷ two ∷ []) parent).1.nla_len
        ≡ 4 + Nlattr.asize_all u16 vec_u8 (abc ∷ two ∷ []))
    × (nested_of u16 (add_all (uint_laws 2) (uint_laws 2) (abc ∷ two ∷ []) parent).1.payload
        ≡ ok (owned (abc ∷ two ∷ [])))
get_nested_attributes-add_all_example =
    get_nested_attributes-add_all (uint_laws 2) (uint_laws 2) (abc ∷ two ∷ []) parent refl
      (abc-IsValid, (two-IsValid, tt)) (omega (arith, both_asize))

abbrev two-IsFirst : IsFirst ◌==◌ ==_iff 1 (abc ∷ two ∷ []) two
two-IsFirst = record {
  front = abc ∷ [];
  back = [];
  split = refl;
  type_is = refl;
  others = (λ e. absurd (omega (arith, e)), tt);
}

nlattrs_total_example :
    Stops Unit
      (Nlattr.deserialize_all (var ctrl_attr) vec_u8)
      (some 7)
      9
      (λ xs h. AreAttributes (var_any ctrl_attr (λ _. refl)) vec_any (some 7) 9 xs)
nlattrs_total_example = nlattrs_total (var_any ctrl_attr (λ _. refl)) vec_any (some 7) 9
