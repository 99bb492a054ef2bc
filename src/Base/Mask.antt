-- ===== src/Base/Mask.antt =====
-- `x & (2^k - 1)` is `x % 2^k`, and a power of two below `2^w` divides it.
use Prim.Native.Nat.{
  ℕ, zero, suc, ◌+◌, ◌-◌, ◌*◌, ◌/◌, ◌%◌, ◌^◌, ◌≤◌, ◌<◌, min, digits, bit_and, bit_and-bitwise,
}
use mathlib.Core.Path.{◌≡◌, refl, ap}
use native.Mathlib.Nat.{pow-suc, one-le-pow}
use native.Mathlib.Omega.{arith}

-- The fuel of the native operation does not matter once it covers the left number.
steady : (x y m n : ℕ) → x ≤ m → x ≤ n → digits (λ d. 0) min m x y ≡ digits (λ d. 0) min n x y
steady (suc x) y (suc m) (suc n) h k =
    let next = steady (suc x / 2) (y / 2) m n (omega arith) (omega arith) in omega (arith, next)
steady (suc x) y zero n h k = absurd (omega arith)
steady (suc x) y (suc m) zero h k = absurd (omega arith)
steady zero y (suc m) (suc n) h k = refl
steady zero y (suc m) zero h k = refl
steady zero y zero (suc n) h k = refl
steady zero y zero zero h k = refl

-- The lowest digit and the others.
halves : (y x : ℕ) → bit_and x y ≡ min (x % 2) (y % 2) + 2 * bit_and (x / 2) (y / 2)
halves y (suc x) =
    let whole = bit_and-bitwise (suc x) y in
    let upper = bit_and-bitwise (suc x / 2) (y / 2) in
    omega
      (arith, whole, upper, steady (suc x / 2) (y / 2) (suc x / 2) x (omega arith) (omega arith))
halves y zero = let lower = bit_and-bitwise 0 y in omega (arith, lower, bit_and-bitwise 0 (y / 2))

masked_out : (k x : ℕ) → x < 2 ^ k → bit_and x 0 ≡ 0
masked_out zero zero h = bit_and-bitwise 0 0
masked_out zero (suc x) h = absurd (omega arith)
masked_out (suc k) x h =
    let shorter = masked_out k (x / 2) (omega (arith, pow-suc 2 k, h)) in
    omega (arith, shorter, halves 0 x)

below_pow : (x : ℕ) → x < 2 ^ x
below_pow zero = omega arith
below_pow (suc x) = omega (arith, below_pow x, pow-suc 2 x)

low_digits : (k q r : ℕ) → r < 2 ^ k → bit_and (q * 2 ^ k + r) (2 ^ k - 1) ≡ r
low_digits zero q r h = ground (arith, masked_out (q * 1 + r) (q * 1 + r) (below_pow (q * 1 + r)))
low_digits (suc k) q r h = ground (
  arith,
  halves (2 ^ suc k - 1) (q * 2 ^ suc k + r),
  ap (λ (t : ℕ). q * t) (pow-suc 2 k),
  pow-suc 2 k,
  one-le-pow k 2,
  low_digits k q (r / 2) (omega arith),
)

-- A mask of `k` low bits takes the remainder by `2 ^ k`.
pub bit_and_mask : (k a : ℕ) → bit_and a (2 ^ k - 1) ≡ a % 2 ^ k
bit_and_mask k a = ground (arith, one-le-pow k 2, low_digits k (a / 2 ^ k) (a % 2 ^ k))
