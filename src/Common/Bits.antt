-- ===== src/Common/Bits.antt =====
-- Binary digits of the native numbers: what `|`, `&` and a single set bit do to each digit.
use Prim.Native.Nat.{
  ℕ, zero, suc, ◌+◌, ◌-◌, ◌*◌, ◌/◌, ◌%◌, ◌^◌, ◌≤◌, ◌<◌, min, max, bit_and, bit_or, digits,
  bit_and-bitwise, bit_or-bitwise,
}
use mathlib.Core.Path.{◌≡◌, refl, ap, ap₂, ◌∙◌}
use mathlib.Core.Logic.{◌≢◌}
use native.Mathlib.Nat.{pow-suc, one-le-pow}
use native.Mathlib.Omega.{arith}

-- Digit `k` of a number.
unfoldable pub test_bit : ℕ → ℕ → ℕ
test_bit zero n = n % 2
test_bit (suc k) n = test_bit k (n / 2)

module _ (z : ℕ → ℕ) (f : ℕ → ℕ → ℕ) where
  -- The count of rounds does not matter once it reaches the number.
  rounds_agree : (k l m n : ℕ) → m ≤ k → m ≤ l → digits z f k m n ≡ digits z f l m n
  rounds_agree zero zero m n few more = refl
  rounds_agree zero (suc l) zero n few more = refl
  rounds_agree zero (suc l) (suc m) n few more = elim few [ ]
  rounds_agree (suc k) zero zero n few more = refl
  rounds_agree (suc k) zero (suc m) n few more = elim more [ ]
  rounds_agree (suc k) (suc l) zero n few more = refl
  rounds_agree (suc k) (suc l) (suc m) n few more =
      let halves = rounds_agree k l (suc m / 2) (n / 2) (omega arith) (omega arith) in
      ap (λ t. t * 2 + f (suc m % 2) (n % 2)) halves

  -- One round splits off the last digits.
  split_digit :
      (op : ℕ → ℕ → ℕ)
      → ((m n : ℕ) → op m n ≡ digits z f m m n)
      → ((n : ℕ) → z n ≡ f 0 (n % 2) + 2 * z (n / 2))
      → (m n : ℕ) → op m n ≡ f (m % 2) (n % 2) + 2 * op (m / 2) (n / 2)
  split_digit op by_rounds base zero n = omega (arith, by_rounds 0 n, by_rounds 0 (n / 2), base n)
  split_digit op by_rounds base (suc m) n =
      let halves = by_rounds (suc m / 2) (n / 2) in
      let same = rounds_agree m (suc m / 2) (suc m / 2) (n / 2) (omega arith) (omega arith) in
      omega (arith, by_rounds (suc m) n, halves, same)

pub bit_and-digit : (m n : ℕ) → bit_and m n ≡ min (m % 2) (n % 2) + 2 * bit_and (m / 2) (n / 2)
bit_and-digit = split_digit (λ _. 0) min bit_and bit_and-bitwise (λ n. omega arith)

pub bit_or-digit : (m n : ℕ) → bit_or m n ≡ max (m % 2) (n % 2) + 2 * bit_or (m / 2) (n / 2)
bit_or-digit = split_digit (λ y. y) max bit_or bit_or-bitwise (λ n. omega arith)

pub test_bit-lt_two : (k n : ℕ) → test_bit k n < 2
unfolding test_bit
test_bit-lt_two zero n = omega arith
test_bit-lt_two (suc k) n = test_bit-lt_two k (n / 2)

pub test_bit-bit_or : (k a b : ℕ) → test_bit k (bit_or a b) ≡ max (test_bit k a) (test_bit k b)
unfolding test_bit
test_bit-bit_or zero a b = omega (arith, bit_or-digit a b)
test_bit-bit_or (suc k) a b =
    let half : bit_or a b / 2 ≡ bit_or (a / 2) (b / 2) = omega (arith, bit_or-digit a b) in
    rw half (test_bit-bit_or k (a / 2) (b / 2))

two-pow-half : (k : ℕ) → 2 ^ suc k / 2 ≡ 2 ^ k
two-pow-half k = omega (arith, pow-suc 2 k)

pub test_bit-pow_self : (k : ℕ) → test_bit k (2 ^ k) ≡ 1
unfolding test_bit
test_bit-pow_self zero = refl
test_bit-pow_self (suc k) = rw (two-pow-half k) (test_bit-pow_self k)

test_bit-zero : (k : ℕ) → test_bit k 0 ≡ 0
unfolding test_bit
test_bit-zero zero = refl
test_bit-zero (suc k) = test_bit-zero k

pub test_bit-pow_ne : (j k : ℕ) → j ≢ k → test_bit j (2 ^ k) ≡ 0
unfolding test_bit
test_bit-pow_ne zero zero h = absurd (h refl)
test_bit-pow_ne zero (suc k) h = omega (arith, pow-suc 2 k)
test_bit-pow_ne (suc j) zero h = test_bit-zero j
test_bit-pow_ne (suc j) (suc k) h = rw (two-pow-half k) (test_bit-pow_ne j k (λ e. h (ap suc e)))

bit_and-zero_rounds : (r a : ℕ) → a ≤ r → bit_and a 0 ≡ 0
bit_and-zero_rounds r zero h = refl
bit_and-zero_rounds zero (suc a) h = elim h [ ]
bit_and-zero_rounds (suc r) (suc a) h =
    omega (arith, bit_and-digit (suc a) 0, bit_and-zero_rounds r (suc a / 2) (omega arith))

-- `a & (1 << k)` keeps digit `k` alone.
pub bit_and-pow : (k a : ℕ) → bit_and a (2 ^ k) ≡ test_bit k a * 2 ^ k
unfolding test_bit
bit_and-pow zero a =
    omega (arith, bit_and-digit a 1, bit_and-zero_rounds (a / 2) (a / 2) (omega arith))
bit_and-pow (suc k) a = omega (
  arith,
  bit_and-digit a (2 ^ suc k),
  ap (λ t. bit_and (a / 2) t) (two-pow-half k),
  bit_and-pow k (a / 2),
  pow-suc 2 k,
  ap (λ (t : ℕ). test_bit k (a / 2) * t) (pow-suc 2 k),
)

bit_or-zero_rounds : (r a : ℕ) → a ≤ r → bit_or a 0 ≡ a
bit_or-zero_rounds r zero h = refl
bit_or-zero_rounds zero (suc a) h = elim h [ ]
bit_or-zero_rounds (suc r) (suc a) h =
    omega (arith, bit_or-digit (suc a) 0, bit_or-zero_rounds r (suc a / 2) (omega arith))

-- `a | (1 << k)` adds that digit where it is not there.
pub bit_or-pow : (k a : ℕ) → bit_or a (2 ^ k) ≡ a + (1 - test_bit k a) * 2 ^ k
unfolding test_bit
bit_or-pow zero a =
    omega (arith, bit_or-digit a 1, bit_or-zero_rounds (a / 2) (a / 2) (omega arith))
bit_or-pow (suc k) a = omega (
  arith,
  bit_or-digit a (2 ^ suc k),
  ap (λ t. bit_or (a / 2) t) (two-pow-half k),
  bit_or-pow k (a / 2),
  pow-suc 2 k,
  ap (λ (t : ℕ). (1 - test_bit k (a / 2)) * t) (pow-suc 2 k),
)

shifted-half : (k q : ℕ) → q * 2 ^ suc k ≡ 2 * (q * 2 ^ k)
shifted-half k q = omega (arith, ap (λ (t : ℕ). q * t) (pow-suc 2 k))

-- `(q << k) | r` is a sum where `r` fits the `k` digits below.
pub bit_or-shifted : (k q r : ℕ) → r < 2 ^ k → bit_or (q * 2 ^ k) r ≡ q * 2 ^ k + r
bit_or-shifted zero q r h = ground (arith, bit_or-zero_rounds q q)
bit_or-shifted (suc k) q r h = omega (
  arith,
  pow-suc 2 k,
  shifted-half k q,
  bit_or-digit (q * 2 ^ suc k) r,
  ap (λ t. bit_or t (r / 2)) (half-of q k),
  bit_or-shifted k q (r / 2) (omega (arith, pow-suc 2 k)),
)
  where
    half-of : (q k : ℕ) → q * 2 ^ suc k / 2 ≡ q * 2 ^ k
    half-of q k = omega (arith, shifted-half k q)

mask_of_sum : (k q r : ℕ) → r < 2 ^ k → bit_and (q * 2 ^ k + r) (2 ^ k - 1) ≡ r
mask_of_sum zero q r h = omega (arith, bit_and-zero_rounds (q * 1 + r) (q * 1 + r) (omega arith))
mask_of_sum (suc k) q r h = omega (
  arith,
  pow-suc 2 k,
  one-le-pow k 2 (omega arith),
  bit_and-digit (q * 2 ^ suc k + r) (2 ^ suc k - 1),
  ap₂ bit_and upper lower,
  shifted-half k q,
  mask_of_sum k q (r / 2) (omega (arith, pow-suc 2 k)),
)
  where
    upper : (q * 2 ^ suc k + r) / 2 ≡ q * 2 ^ k + r / 2
    upper = omega (arith, shifted-half k q)

    lower : (2 ^ suc k - 1) / 2 ≡ 2 ^ k - 1
    lower = omega (arith, pow-suc 2 k, one-le-pow k 2 (omega arith))

-- `a & ((1 << k) - 1)` is a remainder.
pub bit_and-mask : (k a : ℕ) → bit_and a (2 ^ k - 1) ≡ a % 2 ^ k
bit_and-mask k a =
    let whole : a / 2 ^ k * 2 ^ k + a % 2 ^ k ≡ a = grind arith in
    let e : bit_and (a / 2 ^ k * 2 ^ k + a % 2 ^ k) (2 ^ k - 1) ≡ a % 2 ^ k =
      mask_of_sum k (a / 2 ^ k) (a % 2 ^ k) (grind (arith, one-le-pow k 2)) in
    rw whole at e

bit_or-swap_rounds : (r a b : ℕ) → a ≤ r → b ≤ r → bit_or a b ≡ bit_or b a
bit_or-swap_rounds zero zero zero few more = refl
bit_or-swap_rounds zero zero (suc b) few more = elim more [ ]
bit_or-swap_rounds zero (suc a) b few more = elim few [ ]
bit_or-swap_rounds (suc r) a b few more =
    let halves = bit_or-swap_rounds r (a / 2) (b / 2) (omega arith) (omega arith) in
    omega (arith, bit_or-digit a b, bit_or-digit b a, halves)

-- `r | (q << k)`, where `r` fits the `k` digits below.
pub bit_or-above : (k q r : ℕ) → r < 2 ^ k → bit_or r (q * 2 ^ k) ≡ q * 2 ^ k + r
bit_or-above k q r h =
    bit_or-swap_rounds (r + q * 2 ^ k) r (q * 2 ^ k) (omega arith) (omega arith)
    ∙ bit_or-shifted k q r h
