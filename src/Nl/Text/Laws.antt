-- ===== src/Nl/Text/Laws.antt =====
-- What a string is on the wire, and how it is read.
use neli.Base.{ℕ, ◌+◌, ◌-◌, ◌≡◌, refl, ap, arith, ◌==◌, Bool-cases, inl, inr}
use neli.Base.{true, false, Option, none, some, List, [], ◌∷◌, ◌++◌, length, replicate}
use neli.Base.{
  length-append, append_assoc, append-nil, take-append_length, drop-append_length, le→ltb_false,
}
use neli.Outcome.{ok, err, convert, ◌>>=◌}
use neli.Err.{ser_error, de_of_io}
use neli.Buffering.{Libc, Buffering}
use neli.Nl.Runs.{Writes, Reads, Reads-silent, Reads-last, Reads-pure}
use neli.Nl.Bytes.{fill}
use neli.Nl.Laws.{Payload}
use neli.Nl.Text.{
  before_nul, has_nul, from_utf8, serialize_str, serialize_string, deserialize_string, string,
}
use neli.Nl.Text.Utf8.{utf8_error}

before_nul-append : (s rest : List ℕ) → has_nul s ≡ false → before_nul (s ++ (0 ∷ rest)) ≡ s
unfolding before_nul has_nul
before_nul-append [] rest h = refl
before_nul-append (x ∷ s) rest h = elim (Bool-cases (x == 0)) [
  | inl nul ↦ absurd (clash (rw nul at h))
  | inr more ↦ rw more (ap (λ l. x ∷ l) (before_nul-append s rest (rw more at h)))
]
  where
    clash : true ≡ false → ⊥
    clash e = cc

before_nul_whole : (s : List ℕ) → has_nul s ≡ false → before_nul s ≡ s
unfolding before_nul has_nul
before_nul_whole [] h = refl
before_nul_whole (x ∷ s) h = elim (Bool-cases (x == 0)) [
  | inl nul ↦ absurd (clash (rw nul at h))
  | inr more ↦ rw more (ap (λ l. x ∷ l) (before_nul_whole s (rw more at h)))
]
  where
    clash : true ≡ false → ⊥
    clash e = cc

-- The strings that are read back: UTF-8 without a 0.
pub record IsText (s : List ℕ) : Type 0 where
  pub is_utf8 : utf8_error s ≡ none
  pub no_nul : has_nul s ≡ false

from_utf8-IsText : (s : List ℕ) → utf8_error s ≡ none → from_utf8 s ≡ ok s
unfolding from_utf8
from_utf8-IsText s v = rw v

module _ ⦃b : Buffering⦄ where
  pub Writes-string : (s : List ℕ) → has_nul s ≡ false → Writes (serialize_string s) (s ++ (0 ∷ []))
  unfolding serialize_string ◌>>=◌
  Writes-string s h = record {
    at = λ f r. rw (b.take_write_hint_lem f r none) (
        rw h (
          rw (b.write_lem (s ++ (0 ∷ [])) f r none)
            (rw (le→ltb_false (length (s ++ (0 ∷ []))) 0 (omega arith)))));
  }

  pub Writes-str : (s : List ℕ) → Writes (serialize_str s) (s ++ (0 ∷ []))
  unfolding serialize_str ◌>>=◌
  Writes-str s = record {
    at = λ f r. rw (b.take_write_hint_lem f r none) (rw (b.write_lem (s ++ (0 ∷ [])) f r none));
  }

  -- A string that holds a 0 is refused, and nothing is written.
  pub serialize_string-has_nul :
      (s f r : List ℕ) (h : Option ℕ)
      → has_nul s ≡ true
      → serialize_string s (b.writer f r h)
        ≡ (err (ser_error "Unable to serialize string containing null byte"), b.writer f r none)
  unfolding serialize_string ◌>>=◌
  serialize_string-has_nul s f r h e = rw (b.take_write_hint_lem f r h) (rw e)

  read_whole :
      (xs : List ℕ) (n : ℕ) → length xs ≡ n → Reads (convert de_of_io (b.read n)) none xs xs none
  read_whole xs n e = record {
    at = λ f r. rw (← e) (
        rw (b.read_lem (length xs) f (xs ++ r) none)
          (rw (take-append_length xs r) (rw (drop-append_length xs r))));
  }

  decoded :
      (s : List ℕ) → IsText s → from_utf8 (before_nul (fill (length s + 1) (s ++ (0 ∷ [])))) ≡ ok s
  decoded s v = rw (append_assoc) (
      rw (before_nul-append s (replicate (length s + 1 - length (s ++ (0 ∷ []))) 0) v.no_nul)
        (from_utf8-IsText s v.is_utf8))

  pub Reads-string :
      (s : List ℕ)
      → IsText s
      → Reads deserialize_string (some (length s + 1)) (s ++ (0 ∷ [])) s none
  unfolding deserialize_string
  Reads-string s v =
      let h = some (length s + 1) in
      Reads-silent _ _ h (λ f r. rw (b.take_size_hint_lem f r h))
        (Reads-silent _ _ (length s + 1) (λ f r. refl)
          (Reads-last _ _ (read_whole (s ++ (0 ∷ [])) (length s + 1) (length-append s (0 ∷ [])))
            (rw (decoded s v) (Reads-pure s))))

  decoded_cut : (s : List ℕ) → IsText s → from_utf8 (before_nul (fill (length s) s)) ≡ ok s
  decoded_cut s v =
      let full : length s - length s ≡ 0 = omega arith in
      rw full (rw append-nil (rw (before_nul_whole s v.no_nul) (from_utf8-IsText s v.is_utf8)))

  -- With the hint of its own length a string is read without the 0 after it.
  pub Reads-string_cut :
      (s : List ℕ) → IsText s → Reads deserialize_string (some (length s)) s s none
  unfolding deserialize_string
  Reads-string_cut s v =
      let h = some (length s) in
      Reads-silent _ _ h (λ f r. rw (b.take_size_hint_lem f r h))
        (Reads-silent _ _ (length s) (λ f r. refl)
          (Reads-last _ _ (read_whole s (length s) refl) (rw (decoded_cut s v) (Reads-pure s))))

  -- A string of UTF-8 without a 0 is written as its bytes and a 0, and with their number as the hint
  -- it reads back from them, whatever follows.
  pub string_round_trip :
      (s : List ℕ)
      → IsText s
      → Writes (serialize_string s) (s ++ (0 ∷ []))
        × Reads deserialize_string (some (length s + 1)) (s ++ (0 ∷ [])) s none
  string_round_trip s v = (Writes-string s v.no_nul, Reads-string s v)

module _ ⦃c : Libc⦄ ⦃b : Buffering⦄ where
  abbrev pub string_laws : Payload string
  string_laws = record {
    IsValid = IsText;
    bytes = λ s. s ++ (0 ∷ []);
    after = λ _. none;
    length_bytes = λ s _. length-append s (0 ∷ []);
    writes = λ s v. Writes-string s v.no_nul;
    reads = Reads-string;
  }
