-- ===== src/Base/Bits.antt =====
-- Go's `|` of a shifted field and a smaller one, and `&` with a mask of low bits, as arithmetic.
-- Each proof is one recursion on the width, for any count of digits that suffices.
use Prim.Native.Nat.{
  ℕ, zero, suc, ◌+◌, ◌-◌, ◌*◌, ◌/◌, ◌%◌, ◌^◌, ◌≤◌, ◌<◌, min, max, digits, bit_and, bit_or,
  bit_and-bitwise, bit_or-bitwise,
}
use mathlib.Core.Path.{◌≡◌, refl, ap}
use native.Mathlib.Nat.{pow-suc, one-le-pow}
use native.Mathlib.Omega.{arith}

double_power : (q k : ℕ) → q * 2 ^ suc k ≡ 2 * (q * 2 ^ k)
double_power q k = omega (arith, ap (λ (t : ℕ). q * t) (pow-suc 2 k))

or_nothing : (n a : ℕ) → a ≤ n → digits (λ b. b) max n a 0 ≡ a
or_nothing zero a h = omega arith
or_nothing (suc n) zero h = refl
or_nothing (suc n) (suc a) h = omega (arith, or_nothing n (suc a / 2) (omega arith))

or_below : (k n a q r : ℕ) → a ≤ n → a ≡ q * 2 ^ k → r < 2 ^ k → digits (λ b. b) max n a r ≡ a + r
or_below zero n a q r h e f = ground (arith, or_nothing n a)
or_below (suc k) zero a q r h e f = omega arith
or_below (suc k) (suc n) zero q r h e f = omega arith
or_below (suc k) (suc n) (suc a) q r h e f = omega (
  arith,
  double_power q k,
  pow-suc 2 k,
  or_below k n (suc a / 2) q (r / 2) (omega arith) (omega (arith, double_power q k))
      (omega (arith, pow-suc 2 k)),
)

-- `x | y` where x is a multiple of 2 ^ k and y < 2 ^ k.
pub bit_or-add : (k q r : ℕ) → r < 2 ^ k → bit_or (q * 2 ^ k) r ≡ q * 2 ^ k + r
bit_or-add k q r f = omega (
  arith,
  bit_or-bitwise (q * 2 ^ k) r,
  or_below k (q * 2 ^ k) (q * 2 ^ k) q r (omega arith) refl f,
)

and_nothing : (n a : ℕ) → a ≤ n → digits (λ b. 0) min n a 0 ≡ 0
and_nothing zero a h = refl
and_nothing (suc n) zero h = refl
and_nothing (suc n) (suc a) h = omega (arith, and_nothing n (suc a / 2) (omega arith))

and_below :
    (k n a q r : ℕ)
    → a ≤ n
    → a ≡ q * 2 ^ k + r
    → r < 2 ^ k
    → digits (λ b. 0) min n a (2 ^ k - 1) ≡ r
and_below zero n a q r h e f = omega (arith, and_nothing n a h)
and_below (suc k) zero a q r h e f = omega arith
and_below (suc k) (suc n) zero q r h e f = omega arith
and_below (suc k) (suc n) (suc a) q r h e f = omega (
  arith,
  double_power q k,
  pow-suc 2 k,
  one-le-pow k 2,
  ap (λ (t : ℕ). digits (λ b. 0) min n (suc a / 2) t) half_mask,
  and_below k n (suc a / 2) q (r / 2) (omega arith) (omega (arith, double_power q k))
      (omega (arith, pow-suc 2 k)),
)
  where
    half_mask : (2 ^ suc k - 1) / 2 ≡ 2 ^ k - 1
    half_mask = omega (arith, pow-suc 2 k, one-le-pow k 2)

-- `x & (2 ^ k - 1)`.
pub bit_and-mod : (k a : ℕ) → bit_and a (2 ^ k - 1) ≡ a % 2 ^ k
bit_and-mod k a =
    ground (
      arith,
      one-le-pow k 2,
      bit_and-bitwise a (2 ^ k - 1),
      and_below k a a (a / 2 ^ k) (a % 2 ^ k),
    )
