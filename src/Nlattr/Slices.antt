-- ===== src/Nlattr/Slices.antt =====
-- A slice of attributes is written as the vector of them is.
use neli.Base.{ℕ, ◌+◌, ◌≡◌, refl, ap, List, [], ◌∷◌}
use neli.Outcome.{◌>>◌}
use neli.Buffering.{Libc, Buffering}
use neli.Nl.{Nl}
use neli.Nl.Bytes.{vec_u8}
use neli.Nlattr
use neli.Nlattr.{Nlattr}

module _ ⦃c : Libc⦄ ⦃b : Buffering⦄ {T : Type 0} (t : Nl T) where
  serialize_slice-serialize_all :
      (xs : List (Nlattr T (List ℕ)))
      → Nlattr.serialize_slice t xs ≡ Nlattr.serialize_all t vec_u8 xs
  unfolding Nlattr.serialize_slice Nlattr.serialize_all
  serialize_slice-serialize_all [] = refl
  serialize_slice-serialize_all (x ∷ xs) =
      ap (λ m. Nlattr.serialize t vec_u8 x >> m) (serialize_slice-serialize_all xs)

  asize_slice-asize_all :
      (xs : List (Nlattr T (List ℕ))) → Nlattr.asize_slice t xs ≡ Nlattr.asize_all t vec_u8 xs
  unfolding Nlattr.asize_slice Nlattr.asize_all
  asize_slice-asize_all [] = refl
  asize_slice-asize_all (x ∷ xs) = ap (λ n. Nlattr.asize t vec_u8 x + n) (asize_slice-asize_all xs)
