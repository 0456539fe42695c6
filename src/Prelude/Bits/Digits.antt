-- ===== src/Prelude/Bits/Digits.antt =====
-- The lowest binary digit of `&`, `|` and `^`, and the rest.
use Prim.Native.Nat.{
  ℕ, zero, suc, ◌+◌, ◌-◌, ◌*◌, ◌/◌, ◌%◌, ◌^◌, ◌≤◌, min, max, bit_and, bit_or, bit_xor, differ,
  bitwise, digits, bit_and-bitwise, bit_or-bitwise, bit_xor-bitwise,
}
use mathlib.Core.Path.{◌≡◌, refl}
use native.Mathlib.Nat.{pow-suc}
use native.Mathlib.Omega.{arith}

-- The definition behind a native operation recurs on fuel. All fuel from the first number on gives
-- the same digits, so the operation is determined by its lowest digit and the rest.
module _ (z : ℕ → ℕ) (f : ℕ → ℕ → ℕ) where
  settled : (bound fuel a b : ℕ) → fuel ≤ bound → a ≤ fuel → digits z f fuel a b ≡ digits z f a a b
  settled bound zero zero b k h = refl
  settled bound zero (suc a) b k h = absurd (omega arith)
  settled bound (suc fuel) zero b k h = refl
  settled zero (suc fuel) (suc a) b k h = absurd (omega arith)
  settled (suc bound) (suc fuel) (suc a) b k h = omega (
    arith,
    settled bound fuel (suc a / 2) (b / 2) (omega arith) (omega arith),
    settled bound a (suc a / 2) (b / 2) (omega arith) (omega arith),
  )

  lowest_digit :
      (a b : ℕ)
      → bitwise z f (suc a) b ≡ bitwise z f (suc a / 2) (b / 2) * 2 + f (suc a % 2) (b % 2)
  lowest_digit a b = omega (arith, settled a a (suc a / 2) (b / 2) (omega arith) (omega arith))

pub and_lowest : (a b : ℕ) → bit_and a b ≡ bit_and (a / 2) (b / 2) * 2 + min (a % 2) (b % 2)
and_lowest zero b = simp bit_and-bitwise (omega arith)
and_lowest (suc a) b = simp bit_and-bitwise (lowest_digit (λ y. 0) min a b)

pub or_lowest : (a b : ℕ) → bit_or a b ≡ bit_or (a / 2) (b / 2) * 2 + max (a % 2) (b % 2)
or_lowest zero b = simp bit_or-bitwise (omega arith)
or_lowest (suc a) b = simp bit_or-bitwise (lowest_digit (λ y. y) max a b)

zero-differ : (y : ℕ) → differ 0 y ≡ y
zero-differ y = refl

pub xor_lowest : (a b : ℕ) → bit_xor a b ≡ bit_xor (a / 2) (b / 2) * 2 + differ (a % 2) (b % 2)
xor_lowest zero b = simp bit_xor-bitwise (omega arith)
xor_lowest (suc a) b = simp bit_xor-bitwise (lowest_digit (λ y. y) differ a b)

pub half_mask : (k : ℕ) → (2 ^ suc k - 1) / 2 ≡ 2 ^ k - 1
half_mask k = omega (arith, pow-suc 2 k)

pub half_power : (k : ℕ) → 2 ^ suc k / 2 ≡ 2 ^ k
half_power k = omega (arith, pow-suc 2 k)
