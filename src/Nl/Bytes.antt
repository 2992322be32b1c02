-- ===== src/Nl/Bytes.antt =====
-- src/lib.rs, `Nl` for `&[u8]` and `Vec<u8>`, and `NlBuf` for `&[u8]`. A slice reads through
-- `deserialize_buf`, which is given the length of the caller's slice.
use neli.Base.{ℕ, ◌-◌, ◌≡◌, refl, Option, none, some, List, [], ◌++◌, length}
use neli.Base.{drop, take, replicate, append-nil}
use neli.Base.{arith, take-append_length, drop-append_length}
use neli.Outcome.{ok, pure, abort, convert, ◌>>=◌, ◌>>◌}
use neli.Err.{ser_of_io, de_of_io}
use neli.Buffering.{Libc, Buffering}
use neli.Nl.{Nl, WritesBuffer, ReadsBuffer, alignto, slice_to, take_hint}
use neli.Nl.Runs.{Writes, Reads, Writes-silent}

module _ ⦃b : Buffering⦄ where
  abbrev pub take_writer_hint : WritesBuffer (Option ℕ)
  take_writer_hint m = let (h, m') = b.take_write_hint m in pure h m'

  pub serialize_slice : List ℕ → WritesBuffer Unit
  serialize_slice self = do convert ser_of_io (b.write self); pure tt

  unfoldable pub deserialize_slice : ReadsBuffer (List ℕ)
  deserialize_slice = abort

  unfoldable pub deserialize_slice_buf : ℕ → ReadsBuffer (List ℕ)
  deserialize_slice_buf n = convert de_of_io (b.read_exact n)

  -- `&slice[0..sh]` panics past the end.
  abbrev hinted : List ℕ → Option ℕ → WritesBuffer (List ℕ)
  hinted slice (some sh) = slice_to slice sh
  hinted slice none = pure slice

  pub serialize_vec : List ℕ → WritesBuffer Unit
  serialize_vec self = do
    size_hint ← take_writer_hint
    slice_hinted ← hinted self size_hint
    convert ser_of_io (b.write slice_hinted)
    pure tt

  -- `mem.read` into a vector of `sh` zeros: what it does not reach stays 0.
  abbrev pub fill : ℕ → List ℕ → List ℕ
  fill sh xs = xs ++ replicate (sh - length xs) 0

  abbrev read_hinted : Option ℕ → ReadsBuffer (List ℕ)
  read_hinted (some sh) = do xs ← convert de_of_io (b.read sh); pure (fill sh xs)
  read_hinted none = do v ← convert de_of_io b.read_to_end; pure v

  pub deserialize_vec : ReadsBuffer (List ℕ)
  deserialize_vec = do h ← take_hint; v ← read_hinted h; pure v

module _ ⦃c : Libc⦄ ⦃b : Buffering⦄ where
  abbrev pub vec_u8 : Nl (List ℕ)
  vec_u8 = record {
    serialize = serialize_vec;
    deserialize = deserialize_vec;
    size = λ self. length self;
    asize = λ self. alignto (length self);
  }

  abbrev pub slice_u8 : Nl (List ℕ)
  slice_u8 = record {
    serialize = serialize_slice;
    deserialize = deserialize_slice;
    size = λ self. length self;
    asize = λ self. alignto (length self);
  }

module _ ⦃b : Buffering⦄ where
  write-Writes : (xs : List ℕ) → Writes (do convert ser_of_io (b.write xs); pure tt) xs
  unfolding ◌>>=◌
  write-Writes xs = record { at = λ f r. rw (b.write_lem xs f r none) }

  pub Writes-vec : (xs : List ℕ) → Writes (serialize_vec xs) xs
  unfolding serialize_vec
  Writes-vec xs =
      Writes-silent take_writer_hint _ none (λ f r. rw (b.take_write_hint_lem f r none))
        (Writes-silent (pure xs) _ xs (λ f r. refl) (write-Writes xs))

  pub Writes-slice : (xs : List ℕ) → Writes (serialize_slice xs) xs
  unfolding serialize_slice
  Writes-slice xs = write-Writes xs

  -- `Vec<u8>` with a hint: the bytes that are there, up to the hint, and zeros for the others.
  pub deserialize_vec_hinted :
      (n : ℕ) (f r : List ℕ)
      → deserialize_vec (b.reader f r (some n)) ≡ (
        ok (take n r ++ replicate (n - length (take n r)) 0),
        b.reader (f ++ take n r) (drop n r) none,
      )
  unfolding deserialize_vec ◌>>=◌
  deserialize_vec_hinted n f r = rw (b.take_size_hint_lem f r (some n), b.read_lem n f r none)

  -- Without a hint, all that is left.
  pub deserialize_vec_unhinted :
      (f r : List ℕ) → deserialize_vec (b.reader f r none) ≡ (ok r, b.reader (f ++ r) [] none)
  unfolding deserialize_vec ◌>>=◌
  deserialize_vec_unhinted f r = rw (b.take_size_hint_lem f r none, b.read_to_end_lem f r none)

  -- `Vec<u8>` never fails: with a hint it is the bytes that are there, up to the hint, and zeros for
  -- the others; without one it is all that is left. Either way the hint is gone.
  pub deserialize_vec_cases :
      (n : ℕ) (f r : List ℕ)
      → (deserialize_vec (b.reader f r (some n)) ≡ (
        ok (take n r ++ replicate (n - length (take n r)) 0),
        b.reader (f ++ take n r) (drop n r) none,
      ))
        × (deserialize_vec (b.reader f r none) ≡ (ok r, b.reader (f ++ r) [] none))
  deserialize_vec_cases n f r = (deserialize_vec_hinted n f r, deserialize_vec_unhinted f r)

  pub Reads-vec : (xs : List ℕ) → Reads deserialize_vec (some (length xs)) xs xs none
  Reads-vec xs = record {
    at = λ f r. rw (deserialize_vec_hinted (length xs) f (xs ++ r)) (
        rw (take-append_length xs r)
          (rw (drop-append_length xs r) (rw (sub_self (length xs)) (rw append-nil))));
  }
    where
      sub_self : (n : ℕ) → n - n ≡ 0
      sub_self n = omega arith
