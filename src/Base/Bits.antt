-- ===== src/Base/Bits.antt =====
-- `&` and `|` at variables: the law of the lowest digit, full masks, and single bits.
use Prim.Native.Nat.{ℕ, zero, suc, ◌+◌, ◌-◌, ◌*◌, ◌/◌, ◌%◌, ◌^◌, ◌≤◌, ◌<◌, min, max}
use Prim.Native.Nat.{bit_and, bit_or, digits, bit_and-bitwise, bit_or-bitwise}
use mathlib.Core.Path.{◌≡◌, refl, sym, ap}
use native.Mathlib.Nat.{pow-suc, pow-succ', one-le-pow, div-div-eq-div-mul}
use native.Mathlib.Omega.{arith}

module _ (rest : ℕ → ℕ) (digit : ℕ → ℕ → ℕ) where
  abbrev run : ℕ → ℕ → ℕ → ℕ
  run = digits rest digit

  -- Any two amounts of fuel that the number does not pass give the same digits.
  run_agrees : (a k l b : ℕ) → a ≤ k → a ≤ l → run k a b ≡ run l a b
  run_agrees a zero zero b p q = refl
  run_agrees zero zero (suc l) b p q = refl
  run_agrees zero (suc k) zero b p q = refl
  run_agrees zero (suc k) (suc l) b p q = refl
  run_agrees (suc a) zero l b p q = absurd (omega arith)
  run_agrees (suc a) (suc k) zero b p q = absurd (omega arith)
  run_agrees (suc a) (suc k) (suc l) b p q =
      ap (λ (t : ℕ). t * 2 + digit (suc a % 2) (b % 2))
        (run_agrees (suc a / 2) k l (b / 2) (omega arith) (omega arith))

pub bit_and-digit : (a b : ℕ) → bit_and a b ≡ bit_and (a / 2) (b / 2) * 2 + min (a % 2) (b % 2)
bit_and-digit zero b = omega (arith, bit_and-bitwise 0 b, bit_and-bitwise 0 (b / 2))
bit_and-digit (suc a) b = omega (
  arith,
  bit_and-bitwise (suc a) b,
  bit_and-bitwise (suc a / 2) (b / 2),
  run_agrees (λ _. 0) min (suc a / 2) a (suc a / 2) (b / 2) (omega arith) (omega arith),
)

pub bit_or-digit : (a b : ℕ) → bit_or a b ≡ bit_or (a / 2) (b / 2) * 2 + max (a % 2) (b % 2)
bit_or-digit zero b = omega (arith, bit_or-bitwise 0 b, bit_or-bitwise 0 (b / 2))
bit_or-digit (suc a) b = omega (
  arith,
  bit_or-bitwise (suc a) b,
  bit_or-bitwise (suc a / 2) (b / 2),
  run_agrees (λ y. y) max (suc a / 2) a (suc a / 2) (b / 2) (omega arith) (omega arith),
)

bit_and_zero : (k a : ℕ) → a < 2 ^ k → bit_and a 0 ≡ 0
bit_and_zero zero a h = omega (arith, bit_and-bitwise a 0, ap (λ (t : ℕ). bit_and t 0) (one h))
  where
    one : a < 1 → a ≡ 0
    one p = omega arith
bit_and_zero (suc k) a h =
    omega (arith, bit_and-digit a 0, pow-suc 2 k, bit_and_zero k (a / 2) (half (pow-suc 2 k)))
  where
    half : 2 ^ suc k ≡ 2 ^ k * 2 → a / 2 < 2 ^ k
    half e = omega arith

-- A number below `2 ^ k` passes a mask of `k` ones.
pub bit_and_ones : (k a : ℕ) → a < 2 ^ k → bit_and a (2 ^ k - 1) ≡ a
bit_and_ones zero zero h = refl
bit_and_ones zero (suc a) h = absurd (omega arith)
bit_and_ones (suc k) a h =
    ground
      (arith, pow-suc 2 k, one-le-pow k 2, bit_and-digit a (2 ^ suc k - 1), bit_and_ones k (a / 2))

zero-bit_and : (x : ℕ) → bit_and 0 x ≡ 0
zero-bit_and x = bit_and-bitwise 0 x

zero-bit_or : (x : ℕ) → bit_or 0 x ≡ x
zero-bit_or x = bit_or-bitwise 0 x

bit_and_one : (x : ℕ) → bit_and 1 x ≡ x % 2
bit_and_one x = omega (arith, bit_and-digit 1 x, zero-bit_and (x / 2))

bit_or_one : (x : ℕ) → x < 1 → bit_or x 1 ≡ x + 1
bit_or_one zero h = refl
bit_or_one (suc x) h = absurd (omega arith)

-- `1 << i & x` is the bit `i` of `x`, in its place.
pub bit_and_bit : (i x : ℕ) → bit_and (2 ^ i) x ≡ x / 2 ^ i % 2 * 2 ^ i
bit_and_bit zero x = omega (arith, bit_and_one x)
bit_and_bit (suc i) x = rw (bit_and-digit (2 ^ suc i) x) (
    rw (two_halved, bit_and_bit i (x / 2), halves)
      (omega (arith, pow-suc 2 i, ap (λ (t : ℕ). x / 2 / 2 ^ i % 2 * t) (pow-suc 2 i))))
  where
    two_halved : 2 ^ suc i / 2 ≡ 2 ^ i
    two_halved = omega (arith, pow-suc 2 i)

    halves : x / 2 ^ suc i ≡ x / 2 / 2 ^ i
    halves = rw pow-succ' (sym (div-div-eq-div-mul x 2 (2 ^ i)))

-- `|` with a higher bit is a sum.
pub bit_or_bit : (i x : ℕ) → x < 2 ^ i → bit_or x (2 ^ i) ≡ x + 2 ^ i
bit_or_bit zero x h = bit_or_one x h
bit_or_bit (suc i) x h =
    ground (arith, pow-suc 2 i, bit_or-digit x (2 ^ suc i), bit_or_bit i (x / 2))
