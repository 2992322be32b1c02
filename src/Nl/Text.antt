-- ===== src/Nl/Text.antt =====
-- src/lib.rs, `Nl` for `&str` and `String`, and `NlBuf` for `&str`. A string is its bytes, of which
-- `String` and `str` promise that `utf8_error` finds nothing in them.
pub mod Utf8
pub mod Laws
use neli.Base.{ℕ, ◌+◌, ◌-◌, ◌==◌, ltb, leb, if◌then◌else◌, Option, none, some, List, [], ◌∷◌, ◌++◌}
use neli.Base.{length, take, replicate, Bool, true, false}
use neli.Outcome.{Result, ok, err, pure, throw, abort, convert, lift, ◌>>=◌, ◌>>◌, sub_or_panic}
use neli.Err.{SerError, ser_error, DeError, de_error, ser_of_io, de_of_io}
use neli.Buffering.{Libc, Buffering}
use neli.Nl.{Nl, WritesBuffer, ReadsBuffer, alignto, slice_to, take_hint}
use neli.Nl.Bytes.{take_writer_hint, fill}
use neli.Nl.Text.Utf8.{utf8_error}

-- Up to the first 0, or all of it.
unfoldable pub before_nul : List ℕ → List ℕ
before_nul [] = []
before_nul (x ∷ xs) = if x == 0 then [] else x ∷ before_nul xs

unfoldable pub has_nul : List ℕ → Bool
has_nul [] = false
has_nul (x ∷ xs) = if x == 0 then true else has_nul xs

abbrev checked : Option DeError → List ℕ → Result DeError (List ℕ)
checked none v = ok v
checked (some e) v = err e

-- `String::from_utf8` and `str::from_utf8`, with the error converted
unfoldable pub from_utf8 : List ℕ → Result DeError (List ℕ)
from_utf8 v = checked (utf8_error v) v

-- `CString::new`, as the bytes with the terminating 0
abbrev pub c_string : List ℕ → Result SerError (List ℕ)
c_string s =
    if has_nul s
    then err (ser_error "Unable to serialize string containing null byte")
    else ok (s ++ (0 ∷ []))

abbrev pub unwrap_or_zero : Option ℕ → ℕ
unwrap_or_zero none = 0
unwrap_or_zero (some n) = n

module _ ⦃b : Buffering⦄ where
  -- `&str_bytes[..sh - 1]`
  abbrev cut : List ℕ → Option ℕ → WritesBuffer (List ℕ)
  cut str_bytes none = pure str_bytes
  cut str_bytes (some sh) = do last ← sub_or_panic sh 1; slice_to str_bytes last

  pub serialize_str : List ℕ → WritesBuffer Unit
  serialize_str self = do
    size_hint ← take_writer_hint
    bytes ← cut self size_hint
    convert ser_of_io (b.write (bytes ++ (0 ∷ [])))
    pure tt

  unfoldable pub deserialize_str : ReadsBuffer (List ℕ)
  deserialize_str = abort

  -- `input` is a slice of the caller's, of length `n`.
  unfoldable pub deserialize_str_buf : ℕ → ReadsBuffer (List ℕ)
  unfolding before_nul
  deserialize_str_buf n = do
    input ← convert de_of_io (b.read_exact n)
    lift (from_utf8 (before_nul input))

  pub serialize_string : List ℕ → WritesBuffer Unit
  serialize_string self = do
    hint ← take_writer_hint
    let size_hint = unwrap_or_zero hint
    bytes ← lift (c_string self)
    num_bytes ← convert ser_of_io (b.write bytes)
    if ltb num_bytes size_hint
        then (do convert ser_of_io (b.write_all (replicate (size_hint - num_bytes) 0)); pure tt)
        else pure tt

  abbrev pub hint_required : Option ℕ → ReadsBuffer ℕ
  hint_required none = throw (de_error "Size hint required to deserialize strings")
  hint_required (some sh) = pure sh

  pub deserialize_string : ReadsBuffer (List ℕ)
  deserialize_string = do
    hint ← take_hint
    size_hint ← hint_required hint
    v ← convert de_of_io (b.read size_hint)
    lift (from_utf8 (before_nul (fill size_hint v)))

module _ ⦃c : Libc⦄ ⦃b : Buffering⦄ where
  abbrev pub str : Nl (List ℕ)
  str = record {
    serialize = serialize_str;
    deserialize = deserialize_str;
    size = λ self. length self + 1;
    asize = λ self. alignto (length self + 1);
  }

  abbrev pub string : Nl (List ℕ)
  string = record {
    serialize = serialize_string;
    deserialize = deserialize_string;
    size = λ self. length self + 1;
    asize = λ self. alignto (length self + 1);
  }
