-- ===== src/Nl/Uint.antt =====
-- src/lib.rs, `Nl` for `u8`, `u16`, `u32`, `i32` and `u64`. An `i32` is kept as its bit pattern,
-- a number below 2 ^ 32.
use neli.Base.{ℕ, ◌^◌, ◌<◌, ◌≡◌, Option, none, List, length}
use neli.Outcome.{err, convert}
use neli.Err.{ser_of_io, de_of_io}
use neli.Buffering.{Libc, Buffering}
use neli.Nl.{Nl, WritesBuffer, ReadsBuffer, alignto}
use neli.Nl.Runs.{Writes, Reads}

module _ ⦃b : Buffering⦄ where
  pub serialize_uint : ℕ → ℕ → WritesBuffer Unit
  serialize_uint w self = convert ser_of_io (b.write_uint w self)

  pub deserialize_uint : ℕ → ReadsBuffer ℕ
  deserialize_uint w = convert de_of_io (b.read_uint w)

module _ ⦃c : Libc⦄ ⦃b : Buffering⦄ where
  abbrev pub uint : ℕ → Nl ℕ
  uint w = record {
    serialize = serialize_uint w;
    deserialize = deserialize_uint w;
    size = λ _. w;
    asize = λ _. alignto w;
  }

  abbrev pub u8 : Nl ℕ
  u8 = uint 1

  abbrev pub u16 : Nl ℕ
  u16 = uint 2

  abbrev pub u32 : Nl ℕ
  u32 = uint 4

  abbrev pub i32 : Nl ℕ
  i32 = uint 4

  abbrev pub u64 : Nl ℕ
  u64 = uint 8

module _ ⦃b : Buffering⦄ where
  pub Writes-uint : (w v : ℕ) → Writes (serialize_uint w v) (b.encode w v)
  unfolding serialize_uint
  Writes-uint w v = record { at = λ f r. rw (b.write_uint_lem w v f r none, b.length-encode w v) }

  -- Reading takes any bytes, of whatever hint, and gives their value.
  pub Reads-uint_bytes :
      (xs : List ℕ) (h : Option ℕ) → Reads (deserialize_uint (length xs)) h xs (b.decode xs) h
  unfolding deserialize_uint
  Reads-uint_bytes xs h = record { at = λ f r. rw (b.read_uint_lem xs f r h) }

  pub Reads-uint :
      (w v : ℕ) (h : Option ℕ) → v < 256 ^ w → Reads (deserialize_uint w) h (b.encode w v) v h
  Reads-uint w v h fits = subst_two (Reads-uint_bytes (b.encode w v) h)
    where
      subst_two :
          Reads
            (deserialize_uint (length (b.encode w v)))
            h
            (b.encode w v)
            (b.decode (b.encode w v))
            h
          → Reads (deserialize_uint w) h (b.encode w v) v h
      subst_two r = rw (b.length-encode w v, b.decode-encode w v fits) at r

  -- With too few bytes left it is an error.
  pub deserialize_uint_short :
      (w : ℕ) (f r : List ℕ) (h : Option ℕ)
      → length r < w
      → (deserialize_uint w (b.reader f r h)).0 ≡ err (de_of_io b.eof)
  unfolding deserialize_uint
  deserialize_uint_short w f r h short = rw (b.read_uint_short w f r h short)
