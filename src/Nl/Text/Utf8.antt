-- ===== src/Nl/Text/Utf8.antt =====
-- The check of `str::from_utf8`, byte by byte, with the text of its error as src/err.rs keeps it.
use neli.Base.{
  ℕ, ◌+◌, leb, ltb, ◌==◌, if◌then◌else◌, ◌&&◌, Option, none, some, List, [], ◌∷◌, ◌⊎◌, inl, inr,
}
use neli.Base.Decimal.{decimal, ◌<>◌}
use neli.Base.{◌≡◌, refl, ◌-◌}
use neli.Err.{DeError, de_error}

-- Between two characters, or within the one that started at byte `from`, of which `seen` bytes are
-- there and `left` are wanted, the next of them between `lo` and `hi`.
pub data Expect : Type 0 where
  start : Expect
  within : (from seen left lo hi : ℕ) → Expect

abbrev pub invalid : ℕ → ℕ → DeError
invalid seen from = de_error (
    ◌<>◌ "invalid utf-8 sequence of "
      (◌<>◌ (decimal seen) (◌<>◌ " bytes from index " (decimal from))))

abbrev pub incomplete : ℕ → DeError
incomplete from = de_error (◌<>◌ "incomplete utf-8 byte sequence from index " (decimal from))

-- The first byte of a character.
abbrev pub lead : ℕ → ℕ → DeError ⊎ Expect
lead i x =
    if ltb x 0x80
    then inr start
    else if ltb x 0xc2
    then inl (invalid 1 i)
    else if ltb x 0xe0
    then inr (within i 1 1 0x80 0xbf)
    else if x == 0xe0
    then inr (within i 1 2 0xa0 0xbf)
    else if x == 0xed
    then inr (within i 1 2 0x80 0x9f)
    else if ltb x 0xf0
    then inr (within i 1 2 0x80 0xbf)
    else if x == 0xf0
    then inr (within i 1 3 0x90 0xbf)
    else if ltb x 0xf4
    then inr (within i 1 3 0x80 0xbf)
    else if x == 0xf4
    then inr (within i 1 3 0x80 0x8f)
    else inl (invalid 1 i)

abbrev pub follow : ℕ → Expect → ℕ → DeError ⊎ Expect
follow i start x = lead i x
follow i (within from seen left lo hi) x =
    if leb lo x && leb x hi
    then (if leb left 1 then inr start else inr (within from (seen + 1) (left - 1) 0x80 0xbf))
    else inl (invalid seen from)

abbrev ending : Expect → Option DeError
ending start = none
ending (within from seen left lo hi) = some (incomplete from)

unfoldable pub scan : ℕ → Expect → List ℕ → Option DeError
scan i e [] = ending e
scan i e (x ∷ xs) = elim (follow i e x) [ inl error ↦ some error | inr e' ↦ scan (i + 1) e' xs ]

unfoldable pub utf8_error : List ℕ → Option DeError
unfolding scan
utf8_error v = scan 0 start v

-- "é€𝄞", a lone continuation byte, a surrogate, and a character that is cut off
accepted : utf8_error (0xc3 ∷ 0xa9 ∷ 0xe2 ∷ 0x82 ∷ 0xac ∷ 0xf0 ∷ 0x9d ∷ 0x84 ∷ 0x9e ∷ []) ≡ none
unfolding utf8_error
accepted = refl

lone :
    utf8_error (97 ∷ 0x80 ∷ []) ≡ some (de_error "invalid utf-8 sequence of 1 bytes from index 1")
unfolding utf8_error decimal
lone = refl

surrogate :
    utf8_error (0xed ∷ 0xa0 ∷ 0x80 ∷ [])
    ≡ some (de_error "invalid utf-8 sequence of 1 bytes from index 0")
unfolding utf8_error decimal
surrogate = refl

cut_off :
    utf8_error (97 ∷ 0xe2 ∷ 0x82 ∷ [])
    ≡ some (de_error "incomplete utf-8 byte sequence from index 1")
unfolding utf8_error decimal
cut_off = refl
