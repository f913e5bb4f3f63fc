-- ===== src/Prelude/Bits.antt =====
-- The bits of a machine word: `|`, `&`, `!` and `1 << k` read bit by bit, at every position.
use Prim.Native.Nat.{
  ℕ, zero, suc, ◌+◌, ◌-◌, ◌*◌, ◌/◌, ◌%◌, ◌^◌, ◌≤◌, ◌<◌, min, max, bit_and, bit_or, digits, bitwise,
  bit_and-bitwise, bit_or-bitwise,
}
use mathlib.Core.Path.{◌≡◌, refl, ap, ◌∙◌}
use mathlib.Core.Bool.{Bool, false, not, ◌&&◌, ◌||◌}
use native.Mathlib.Nat.{le_refl, pow-suc, one-le-pow}
use native.Mathlib.Omega.{arith}
use aici.Prelude.Tests.{◌==◌, if◌then◌else◌}

-- Bit `k` of `x`.
abbrev pub test_bit : ℕ → ℕ → Bool
test_bit x zero = x % 2 == 1
test_bit x (suc k) = test_bit (x / 2) k

module _ (z : ℕ → ℕ) (f : ℕ → ℕ → ℕ) where
  digits_enough : (n m a b : ℕ) → a ≤ n → a ≤ m → digits z f n a b ≡ digits z f m a b
  digits_enough zero zero a b p q = refl
  digits_enough zero (suc m) zero b p q = refl
  digits_enough zero (suc m) (suc a) b p q = absurd (omega arith)
  digits_enough (suc n) zero zero b p q = refl
  digits_enough (suc n) zero (suc a) b p q = absurd (omega arith)
  digits_enough (suc n) (suc m) zero b p q = refl
  digits_enough (suc n) (suc m) (suc a) b p q =
      rw (digits_enough n m (suc a / 2) (b / 2) (omega arith) (omega arith))

  bitwise_digit :
      (a b : ℕ)
      → bitwise z f (suc a) b ≡ bitwise z f (suc a / 2) (b / 2) * 2 + f (suc a % 2) (b % 2)
  bitwise_digit a b =
      omega (arith, digits_enough a (suc a / 2) (suc a / 2) (b / 2) (omega arith) (le_refl _))

pub bit_or_digit : (a b : ℕ) → bit_or a b ≡ bit_or (a / 2) (b / 2) * 2 + max (a % 2) (b % 2)
bit_or_digit zero b = simp bit_or-bitwise (omega arith)
bit_or_digit (suc a) b = simp bit_or-bitwise (bitwise_digit (λ y. y) max a b)

pub bit_and_digit : (a b : ℕ) → bit_and a b ≡ bit_and (a / 2) (b / 2) * 2 + min (a % 2) (b % 2)
bit_and_digit zero b = simp bit_and-bitwise (omega arith)
bit_and_digit (suc a) b = simp bit_and-bitwise (bitwise_digit (λ y. 0) min a b)

half-bit_or : (a b : ℕ) → bit_or a b / 2 ≡ bit_or (a / 2) (b / 2)
half-bit_or a b = omega (arith, bit_or_digit a b)

half-bit_and : (a b : ℕ) → bit_and a b / 2 ≡ bit_and (a / 2) (b / 2)
half-bit_and a b = omega (arith, bit_and_digit a b)

pub test_bit-bit_or : (k a b : ℕ) → test_bit (bit_or a b) k ≡ (test_bit a k || test_bit b k)
test_bit-bit_or zero a b = ground (arith, bit_or_digit a b)
test_bit-bit_or (suc k) a b = rw (half-bit_or a b) (test_bit-bit_or k (a / 2) (b / 2))

pub test_bit-bit_and : (k a b : ℕ) → test_bit (bit_and a b) k ≡ (test_bit a k && test_bit b k)
test_bit-bit_and zero a b = ground (arith, bit_and_digit a b)
test_bit-bit_and (suc k) a b = rw (half-bit_and a b) (test_bit-bit_and k (a / 2) (b / 2))

pub test_bit_zero : (k : ℕ) → test_bit 0 k ≡ false
test_bit_zero zero = refl
test_bit_zero (suc k) = test_bit_zero k

half_pow : (k : ℕ) → 2 ^ suc k / 2 ≡ 2 ^ k
half_pow k = omega (arith, pow-suc 2 k)

-- `1 << k` has the bit `k` alone.
pub test_bit_pow : (k j : ℕ) → test_bit (2 ^ k) j ≡ (k == j)
test_bit_pow zero zero = refl
test_bit_pow zero (suc j) = test_bit_zero j ∙ ground arith
test_bit_pow (suc k) zero = ground (arith, pow-suc 2 k)
test_bit_pow (suc k) (suc j) = rw (half_pow k) (test_bit_pow k j ∙ ground arith)

-- `!x` in a word of `w` bits.
pub test_bit-not : (w k x : ℕ) → x < 2 ^ w → k < w → test_bit (2 ^ w - 1 - x) k ≡ not (test_bit x k)
test_bit-not zero k x h l = elim l [ ]
test_bit-not (suc w) zero x h l = ground (arith, pow-suc 2 w, one-le-pow w 2)
test_bit-not (suc w) (suc k) x h l =
    rw halves (test_bit-not w k (x / 2) (omega (arith, pow-suc 2 w)) (omega arith))
  where
    halves : (2 ^ suc w - 1 - x) / 2 ≡ 2 ^ w - 1 - x / 2
    halves = omega (arith, pow-suc 2 w, one-le-pow w 2)

bit_and_zero : (n a : ℕ) → a ≤ n → bit_and a 0 ≡ 0
bit_and_zero n zero h = refl
bit_and_zero zero (suc a) h = absurd (omega arith)
bit_and_zero (suc n) (suc a) h =
    omega (arith, bit_and_digit (suc a) 0, bit_and_zero n (suc a / 2) (omega arith))

-- Masking with one bit is the test of it.
pub bit_and_pow : (k x : ℕ) → bit_and x (2 ^ k) ≡ (if test_bit x k then 2 ^ k else 0)
bit_and_pow zero x = ground (arith, bit_and_digit x 1, bit_and_zero (x / 2) (x / 2))
bit_and_pow (suc k) x =
    ground (arith, bit_and_digit x (2 ^ suc k), half_pow k, pow-suc 2 k, bit_and_pow k (x / 2))

pub bit_or-lt : (w a b : ℕ) → a < 2 ^ w → b < 2 ^ w → bit_or a b < 2 ^ w
bit_or-lt zero a b p q =
    let ea : a ≡ 0 = omega arith in let eb : b ≡ 0 = omega arith in rw (ea, eb) (omega arith)
bit_or-lt (suc w) a b p q = omega (
  arith,
  bit_or_digit a b,
  pow-suc 2 w,
  bit_or-lt w (a / 2) (b / 2) (omega (arith, pow-suc 2 w)) (omega (arith, pow-suc 2 w)),
)

pub bit_and-lt : (w a b : ℕ) → a < 2 ^ w → bit_and a b < 2 ^ w
bit_and-lt zero a b p =
    let ea : a ≡ 0 = omega arith in rw ea (omega (arith, bit_and_digit 0 b, bit_and-bitwise 0 b))
bit_and-lt (suc w) a b p = omega (
  arith,
  bit_and_digit a b,
  pow-suc 2 w,
  bit_and-lt w (a / 2) (b / 2) (omega (arith, pow-suc 2 w)),
)

-- A word is zero exactly when none of its bits is set.
pub zero_of_bits : (w x : ℕ) → x < 2 ^ w → ((k : ℕ) → k < w → test_bit x k ≡ false) → x ≡ 0
zero_of_bits zero x h bits = omega arith
zero_of_bits (suc w) x h bits = ground (
  arith,
  bits 0 (omega arith),
  zero_of_bits w (x / 2) (omega (arith, pow-suc 2 w)) (λ k l. bits (suc k) (omega arith)),
)

bit_or_zero : (n a : ℕ) → a ≤ n → bit_or a 0 ≡ a
bit_or_zero n zero h = refl
bit_or_zero zero (suc a) h = absurd (omega arith)
bit_or_zero (suc n) (suc a) h =
    omega (arith, bit_or_digit (suc a) 0, bit_or_zero n (suc a / 2) (omega arith))

two_pow_step : (q k : ℕ) → q * 2 ^ suc k ≡ 2 * (q * 2 ^ k)
two_pow_step q k = omega (arith, ap (λ (t : ℕ). q * t) (pow-suc 2 k))

-- `(q << k) | r` is a sum when `r` fits `k` bits.
pub bit_or_fields : (k q r : ℕ) → r < 2 ^ k → bit_or (q * 2 ^ k) r ≡ q * 2 ^ k + r
bit_or_fields zero q r h = ground (arith, bit_or_zero q q)
bit_or_fields (suc k) q r h = ground (
  arith,
  bit_or_digit (q * 2 ^ suc k) r,
  two_pow_step q k,
  pow-suc 2 k,
  bit_or_fields k q (r / 2) (omega (arith, pow-suc 2 k)),
)

bit_or_comm_fuel : (n a b : ℕ) → a ≤ n → b ≤ n → bit_or a b ≡ bit_or b a
bit_or_comm_fuel zero a b p q =
    let ea : a ≡ 0 = omega arith in let eb : b ≡ 0 = omega arith in rw (ea, eb)
bit_or_comm_fuel (suc n) a b p q = omega (
  arith,
  bit_or_digit a b,
  bit_or_digit b a,
  bit_or_comm_fuel n (a / 2) (b / 2) (omega arith) (omega arith),
)

pub bit_or_comm : (a b : ℕ) → bit_or a b ≡ bit_or b a
bit_or_comm a b = bit_or_comm_fuel (a + b) a b (omega arith) (omega arith)

low_bits : (k q r : ℕ) → r < 2 ^ k → bit_and (q * 2 ^ k + r) (2 ^ k - 1) ≡ r
low_bits zero q r h = rw (bit_and_zero (q * 1 + r) (q * 1 + r) (omega arith)) (omega arith)
low_bits (suc k) q r h = ground (
  arith,
  bit_and_digit (q * 2 ^ suc k + r) (2 ^ suc k - 1),
  two_pow_step q k,
  pow-suc 2 k,
  low_bits k q (r / 2) (omega (arith, pow-suc 2 k)),
)

-- A mask of `k` low bits is the remainder by `2 ^ k`.
pub bit_and_mask : (k a : ℕ) → bit_and a (2 ^ k - 1) ≡ a % 2 ^ k
bit_and_mask k a = ground (arith, one-le-pow k 2, low_bits k (a / 2 ^ k) (a % 2 ^ k))
