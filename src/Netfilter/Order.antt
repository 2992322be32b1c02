-- ===== src/Netfilter/Order.antt =====
-- `to_be` and `from_be` of src/netfilter.rs's integers, which are methods of the standard library: the
-- bytes of `to_be` in native order are those of the number from the high one to the low one.
use neli.Base.{ℕ, zero, suc, ◌+◌, ◌*◌, ◌/◌, ◌%◌, ◌^◌, ◌<◌, ◌≡◌, refl, ap, sym, ◌∙◌, arith}
use neli.Base.{List, [], ◌∷◌, length}
use neli.Buffering.{Buffering, All, IsByte}
use native.Mathlib.Nat.{pow-suc, div-div-eq-div-mul, div-eq_of_lt}

unfoldable pub big_bytes : ℕ → ℕ → List ℕ
big_bytes zero v = []
big_bytes (suc w) v = (v / 256 ^ w % 256) ∷ big_bytes w v

-- Bytes after those that make `high`.
unfoldable pub from_big : ℕ → List ℕ → ℕ
from_big high [] = high
from_big high (x ∷ xs) = from_big (high * 256 + x) xs

pub length-big_bytes : (w v : ℕ) → length (big_bytes w v) ≡ w
unfolding big_bytes
length-big_bytes zero v = refl
length-big_bytes (suc w) v = ap suc (length-big_bytes w v)

pub big_bytes-AreBytes : (w v : ℕ) → All IsByte (big_bytes w v)
unfolding big_bytes
big_bytes-AreBytes zero v = tt
big_bytes-AreBytes (suc w) v = (omega arith, big_bytes-AreBytes w v)

digit : (w v : ℕ) → v / 256 ^ suc w * 256 + v / 256 ^ w % 256 ≡ v / 256 ^ w
digit w v =
    let split : v / 256 ^ suc w ≡ v / 256 ^ w / 256 =
      rw (pow-suc 256 w) (sym (div-div-eq-div-mul v (256 ^ w) 256)) in
    rw split (omega arith)

-- The high digits are those of `v / 256 ^ w`.
from_big-big_bytes_high : (w v : ℕ) → from_big (v / 256 ^ w) (big_bytes w v) ≡ v
unfolding big_bytes from_big
from_big-big_bytes_high zero v = omega arith
from_big-big_bytes_high (suc w) v =
    ap (λ high. from_big high (big_bytes w v)) (digit w v) ∙ from_big-big_bytes_high w v

module _ ⦃b : Buffering⦄ where
  unfoldable pub to_be : ℕ → ℕ → ℕ
  unfolding big_bytes
  to_be w v = b.decode (big_bytes w v)

  unfoldable pub from_be : ℕ → ℕ → ℕ
  unfolding from_big
  from_be w v = from_big 0 (b.encode w v)

  pub encode-to_be : (w v : ℕ) → b.encode w (to_be w v) ≡ big_bytes w v
  unfolding to_be
  encode-to_be w v =
      rw (length-big_bytes w v) at (b.encode-decode (big_bytes w v) (big_bytes-AreBytes w v))

  pub to_be-lt : (w v : ℕ) → to_be w v < 256 ^ w
  unfolding to_be
  to_be-lt w v = rw (length-big_bytes w v) at (b.decode-lt (big_bytes w v) (big_bytes-AreBytes w v))

  pub from_be-to_be : (w v : ℕ) → v < 256 ^ w → from_be w (to_be w v) ≡ v
  unfolding from_be
  from_be-to_be w v small =
      let none_above : v / 256 ^ w ≡ 0 = div-eq_of_lt small in
      rw (encode-to_be w v) (rw none_above at (from_big-big_bytes_high w v))
