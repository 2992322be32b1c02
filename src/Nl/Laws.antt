-- ===== src/Nl/Laws.antt =====
-- What an implementation of `Nl` promises: the bytes that it writes, their number, and that it reads
-- them back. The clients (attributes, headers) rest on these records, and each implementation has
-- its own.
use neli.Base.{ℕ, ◌^◌, ◌<◌, ◌≡◌, refl, Option, none, some, List, length}
use neli.Buffering.{Libc, Buffering}
use neli.Nl.{Nl}
use neli.Nl.Runs.{Writes, Reads}
use neli.Nl.Uint.{uint, Writes-uint, Reads-uint}
use neli.Nl.Bytes.{vec_u8, Writes-vec, Reads-vec}

module _ ⦃b : Buffering⦄ where
  -- A type of fixed width, whose hint is left as it was.
  pub record Fixed {A : Type 0} (n : Nl A) (width : ℕ) : Type 1 where
    pub IsValid : A → Type 0
    pub bytes : A → List ℕ
    pub length_bytes : (a : A) → length (bytes a) ≡ width
    pub sized : (a : A) → n.size a ≡ width
    pub writes : (a : A) → Writes (n.serialize a) (bytes a)
    pub reads : (a : A) (h : Option ℕ) → IsValid a → Reads n.deserialize h (bytes a) a h

  -- A payload, read with its size as the hint. `after` is the hint that it leaves.
  pub record Payload {A : Type 0} (n : Nl A) : Type 1 where
    pub IsValid : A → Type 0
    pub bytes : A → List ℕ
    pub after : A → Option ℕ
    pub length_bytes : (a : A) → IsValid a → length (bytes a) ≡ n.size a
    pub writes : (a : A) → IsValid a → Writes (n.serialize a) (bytes a)
    pub reads : (a : A) → IsValid a → Reads n.deserialize (some (n.size a)) (bytes a) a (after a)

module _ ⦃c : Libc⦄ ⦃b : Buffering⦄ where
  abbrev pub uint_laws : (w : ℕ) → Fixed (uint w) w
  uint_laws w = record {
    IsValid = λ v. v < 256 ^ w;
    bytes = b.encode w;
    length_bytes = b.length-encode w;
    sized = λ _. refl;
    writes = Writes-uint w;
    reads = λ v h fits. Reads-uint w v h fits;
  }

  abbrev pub vec_laws : Payload vec_u8
  vec_laws = record {
    IsValid = λ _. Unit;
    bytes = λ xs. xs;
    after = λ _. none;
    length_bytes = λ _ _. refl;
    writes = λ xs _. Writes-vec xs;
    reads = λ xs _. Reads-vec xs;
  }

  -- A fixed width serves as a payload, and leaves its own size as the hint.
  abbrev pub payload_of_fixed : {A : Type 0} {n : Nl A} {w : ℕ} → Fixed n w → Payload n
  payload_of_fixed {n} f = record {
    IsValid = f.IsValid;
    bytes = f.bytes;
    after = λ a. some (n.size a);
    length_bytes = λ a _. rw (f.sized a) (f.length_bytes a);
    writes = λ a _. f.writes a;
    reads = λ a v. f.reads a (some (n.size a)) v;
  }
