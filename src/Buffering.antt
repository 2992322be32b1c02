-- ===== src/Buffering.antt =====
-- What the library takes from other crates: the streams of `buffering`, the integers of
-- `byteorder` and the constants of `libc`. They are parameters. A law speaks of `reader front rest
-- hint`, a `StreamReadBuffer` that has read `front` and has `rest` before it, and of `writer front
-- back hint`, a `StreamWriteBuffer` over a growable vector `front ++ back` at position `length
-- front`. `left` is no operation of the crate: loops take their fuel from it.
use neli.Base.{ℕ, ◌^◌, ◌<◌, ◌≤◌, ◌≡◌, Bool, true, false, Option, none, some, String}
use neli.Base.{List, [], ◌∷◌, ◌++◌, length, take, drop}
use neli.Outcome.{ok, err, Exec}
use neli.Err.{IoError}

abbrev pub IsByte : ℕ → Type 0
IsByte x = x < 256

abbrev pub All {ℓ κ} : {A : Type ℓ} → (A → Type κ) → List A → Type κ
All P [] = Unit
All P (x ∷ xs) = P x × All P xs

-- The values of `libc`, by name. Casts are written out where a constant is used.
pub record Libc : Type 0 where
  pub constant : String → ℕ
  pub nla_alignto_four : constant "NLA_ALIGNTO" ≡ 4

pub record Buffering : Type 1 where
  pub ReadBuffer : Type 0
  pub WriteBuffer : Type 0
  pub new_read : List ℕ → ReadBuffer
  pub set_size_hint : ℕ → ReadBuffer → ReadBuffer
  pub take_size_hint : ReadBuffer → Option ℕ × ReadBuffer
  pub at_end : ReadBuffer → Bool
  pub rewind : ReadBuffer → ReadBuffer
  pub left : ReadBuffer → ℕ
  -- Each gives the bytes that were read into the caller's slice of that length.
  pub read : ℕ → Exec ReadBuffer IoError (List ℕ)
  pub read_exact : ℕ → Exec ReadBuffer IoError (List ℕ)
  pub read_to_end : Exec ReadBuffer IoError (List ℕ)
  -- `read_u8`, `read_u16::<NativeEndian>` and so on, by the number of bytes
  pub read_uint : ℕ → Exec ReadBuffer IoError ℕ
  pub new_growable : Option ℕ → WriteBuffer
  pub new_growable_ref : List ℕ → WriteBuffer
  pub set_position : ℕ → WriteBuffer → WriteBuffer
  pub contents : WriteBuffer → List ℕ
  pub take_write_hint : WriteBuffer → Option ℕ × WriteBuffer
  pub write : List ℕ → Exec WriteBuffer IoError ℕ
  pub write_all : List ℕ → Exec WriteBuffer IoError Unit
  pub write_uint : ℕ → ℕ → Exec WriteBuffer IoError Unit
  -- the bytes of an integer in native order
  pub encode : ℕ → ℕ → List ℕ
  pub decode : List ℕ → ℕ
  pub length-encode : (w v : ℕ) → length (encode w v) ≡ w
  pub decode-encode : (w v : ℕ) → v < 256 ^ w → decode (encode w v) ≡ v
  pub encode-decode : (xs : List ℕ) → All IsByte xs → encode (length xs) (decode xs) ≡ xs
  pub decode-lt : (xs : List ℕ) → All IsByte xs → decode xs < 256 ^ length xs
  -- the views
  pub reader : List ℕ → List ℕ → Option ℕ → ReadBuffer
  pub writer : List ℕ → List ℕ → Option ℕ → WriteBuffer
  pub new_read_lem : (xs : List ℕ) → new_read xs ≡ reader [] xs none
  pub set_size_hint_lem :
      (f r : List ℕ) (h : Option ℕ) (n : ℕ) → set_size_hint n (reader f r h) ≡ reader f r (some n)
  pub take_size_hint_lem :
      (f r : List ℕ) (h : Option ℕ) → take_size_hint (reader f r h) ≡ (h, reader f r none)
  pub at_end_nil : (f : List ℕ) (h : Option ℕ) → at_end (reader f [] h) ≡ true
  pub at_end_cons : (f r : List ℕ) (x : ℕ) (h : Option ℕ) → at_end (reader f (x ∷ r) h) ≡ false
  pub rewind_lem : (f r : List ℕ) (h : Option ℕ) → rewind (reader f r h) ≡ reader [] (f ++ r) h
  pub left_lem : (f r : List ℕ) (h : Option ℕ) → left (reader f r h) ≡ length r
  pub read_lem :
      (n : ℕ) (f r : List ℕ) (h : Option ℕ)
      → read n (reader f r h) ≡ (ok (take n r), reader (f ++ take n r) (drop n r) h)
  pub read_exact_lem :
      (xs f r : List ℕ) (h : Option ℕ)
      → read_exact (length xs) (reader f (xs ++ r) h) ≡ (ok xs, reader (f ++ xs) r h)
  pub read_to_end_lem :
      (f r : List ℕ) (h : Option ℕ) → read_to_end (reader f r h) ≡ (ok r, reader (f ++ r) [] h)
  pub read_uint_lem :
      (xs f r : List ℕ) (h : Option ℕ)
      → read_uint (length xs) (reader f (xs ++ r) h) ≡ (ok (decode xs), reader (f ++ xs) r h)
  -- Past the end both fail; where that leaves the buffer is not said.
  pub eof : IoError
  pub read_exact_short :
      (n : ℕ) (f r : List ℕ) (h : Option ℕ)
      → length r < n
      → (read_exact n (reader f r h)).0 ≡ err eof
  pub read_uint_short :
      (n : ℕ) (f r : List ℕ) (h : Option ℕ)
      → length r < n
      → (read_uint n (reader f r h)).0 ≡ err eof
  pub new_growable_lem : (capacity : Option ℕ) → new_growable capacity ≡ writer [] [] none
  pub new_growable_ref_lem : (xs : List ℕ) → new_growable_ref xs ≡ writer [] xs none
  pub set_position_lem :
      (n : ℕ) (f r : List ℕ) (h : Option ℕ)
      → n ≤ length (f ++ r)
      → set_position n (writer f r h) ≡ writer (take n (f ++ r)) (drop n (f ++ r)) h
  pub contents_lem : (f r : List ℕ) (h : Option ℕ) → contents (writer f r h) ≡ f ++ r
  pub take_write_hint_lem :
      (f r : List ℕ) (h : Option ℕ) → take_write_hint (writer f r h) ≡ (h, writer f r none)
  pub write_lem :
      (xs f r : List ℕ) (h : Option ℕ)
      → write xs (writer f r h) ≡ (ok (length xs), writer (f ++ xs) (drop (length xs) r) h)
  pub write_all_lem :
      (xs f r : List ℕ) (h : Option ℕ)
      → write_all xs (writer f r h) ≡ (ok tt, writer (f ++ xs) (drop (length xs) r) h)
  pub write_uint_lem :
      (w v : ℕ) (f r : List ℕ) (h : Option ℕ)
      → write_uint w v (writer f r h) ≡ (ok tt, writer (f ++ encode w v) (drop w r) h)
