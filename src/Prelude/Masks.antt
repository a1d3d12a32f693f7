-- ===== src/Prelude/Masks.antt =====
-- Masks of ones: `x & (2 ^ k - 1)` is `x % 2 ^ k`.
use Prim.Native.Nat.{digits, bit_and-bitwise, min}
use mathlib.Core.Path.{◌≡◌, refl, sym, ap, ◌∙◌}
use Prim.Native.Nat.{ℕ, zero, suc, ◌+◌, ◌-◌, ◌*◌, ◌/◌, ◌%◌, ◌^◌, ◌≤◌, bit_and}
use native.Mathlib.Omega.{arith}
use native.Mathlib.Nat.{
  pow-succ', one-le-pow, mod-one, mod-eq-sub-mul-div, div-div-eq-div-mul, mul-div-le,
}

-- What `bit_and` unfolds to, with its fuel in the open.
abbrev by_digits : ℕ → ℕ → ℕ → ℕ
by_digits = digits (λ b. zero) min

by_digits-fuel : (m n a b : ℕ) → a ≤ m → a ≤ n → by_digits m a b ≡ by_digits n a b
by_digits-fuel zero zero a b hm hn = refl
by_digits-fuel zero (suc n) zero b hm hn = refl
by_digits-fuel zero (suc n) (suc a) b hm hn = absurd (omega arith)
by_digits-fuel (suc m) zero zero b hm hn = refl
by_digits-fuel (suc m) zero (suc a) b hm hn = absurd (omega arith)
by_digits-fuel (suc m) (suc n) zero b hm hn = refl
by_digits-fuel (suc m) (suc n) (suc a) b hm hn =
    omega (arith, by_digits-fuel m n (suc a / 2) (b / 2) (omega arith) (omega arith))

zero-bit_and : (b : ℕ) → bit_and 0 b ≡ 0
zero-bit_and b = bit_and-bitwise 0 b

-- The lowest digit apart.
pub bit_and-halves : (a b : ℕ) → bit_and a b ≡ bit_and (a / 2) (b / 2) * 2 + min (a % 2) (b % 2)
bit_and-halves zero b = omega (arith, zero-bit_and b, zero-bit_and (b / 2))
bit_and-halves (suc a) b = omega (
  arith,
  bit_and-bitwise (suc a) b,
  bit_and-bitwise (suc a / 2) (b / 2),
  by_digits-fuel a (suc a / 2) (suc a / 2) (b / 2) (omega arith) (omega arith),
)

bit_and-zero_below : (n a : ℕ) → a ≤ n → bit_and a 0 ≡ 0
bit_and-zero_below n zero h = zero-bit_and 0
bit_and-zero_below zero (suc a) h = absurd (omega arith)
bit_and-zero_below (suc n) (suc a) h =
    omega (arith, bit_and-halves (suc a) 0, bit_and-zero_below n (suc a / 2) (omega arith))

half_mask : (k : ℕ) → (2 ^ suc k - 1) / 2 ≡ 2 ^ k - 1
half_mask k = omega (arith, pow-succ' 2 k)

mod-double : (a m : ℕ) → a % (2 * m) ≡ a / 2 % m * 2 + a % 2
mod-double a m = omega (
  arith,
  mod-eq-sub-mul-div a (2 * m),
  mod-eq-sub-mul-div (a / 2) m,
  ap (λ (t : ℕ). m * t) (div-div-eq-div-mul a 2 m),
  mul-div-le a (2 * m),
  mul-div-le (a / 2) m,
)

-- A mask of `k` ones keeps the remainder by `2 ^ k`.
pub bit_and-mask : (k a : ℕ) → bit_and a (2 ^ k - 1) ≡ a % 2 ^ k
bit_and-mask zero a = bit_and-zero_below a a (omega arith) ∙ sym (mod-one a)
bit_and-mask (suc k) a = omega (
  arith,
  pow-succ' 2 k,
  one-le-pow k 2 (omega arith),
  bit_and-halves a (2 ^ suc k - 1),
  bit_and-mask k (a / 2),
  ap (λ (t : ℕ). bit_and (a / 2) t) (half_mask k),
  mod-double a (2 ^ k),
  ap (λ (t : ℕ). a % t) (pow-succ' 2 k),
)
