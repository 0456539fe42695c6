-- ===== src/Prelude/Bits/Xor.antt =====
-- Exclusive or undoes itself.
use Prim.Native.Nat.{ℕ, zero, suc, ◌+◌, ◌*◌, ◌/◌, ◌%◌, ◌^◌, ◌≤◌, ◌<◌, bit_xor, differ}
use mathlib.Core.Path.{◌≡◌, refl, ap₂}
use native.Mathlib.Nat.{pow-suc}
use native.Mathlib.Omega.{arith}
use capy_js.Prelude.Bits.Digits.{xor_lowest}

-- Exclusive or of two binary digits is a digit, and undoes itself.
differ_digits : (x y : ℕ) → x < 2 → y < 2 → (differ x y < 2) × (differ (differ x y) y ≡ x)
differ_digits zero zero h k = omega arith
differ_digits zero (suc zero) h k = omega arith
differ_digits (suc zero) zero h k = omega arith
differ_digits (suc zero) (suc zero) h k = omega arith
differ_digits (suc (suc x)) y h k = absurd (omega arith)
differ_digits x (suc (suc y)) h k = absurd (omega arith)

undone : (bound a b : ℕ) → a + b ≤ bound → bit_xor (bit_xor a b) b ≡ a
undone zero zero zero h = refl
undone zero (suc a) b h = absurd (omega arith)
undone zero a (suc b) h = absurd (omega arith)
undone (suc bound) a b h = omega (
  arith,
  xor_lowest (bit_xor a b) b,
  ap₂ (λ (x y : ℕ). bit_xor x (b / 2) * 2 + differ y (b % 2)) rest digit,
  undone bound (a / 2) (b / 2) (omega arith),
  digits_of,
)
  where
    digits_of : (differ (a % 2) (b % 2) < 2) × (differ (differ (a % 2) (b % 2)) (b % 2) ≡ a % 2)
    digits_of = differ_digits (a % 2) (b % 2) (omega arith) (omega arith)

    rest : bit_xor a b / 2 ≡ bit_xor (a / 2) (b / 2)
    rest = omega (arith, xor_lowest a b, digits_of)

    digit : bit_xor a b % 2 ≡ differ (a % 2) (b % 2)
    digit = omega (arith, xor_lowest a b, digits_of)

-- Masking twice with the same byte gives the byte back.
pub bit_xor_twice : (a b : ℕ) → bit_xor (bit_xor a b) b ≡ a
bit_xor_twice a b = undone (a + b) a b (omega arith)

pub bit_xor-lt : (k a b : ℕ) → a < 2 ^ k → b < 2 ^ k → bit_xor a b < 2 ^ k
bit_xor-lt zero zero zero h j = omega arith
bit_xor-lt zero (suc a) b h j = absurd (omega arith)
bit_xor-lt zero a (suc b) h j = absurd (omega arith)
bit_xor-lt (suc k) a b h j = omega (
  arith,
  pow-suc 2 k,
  xor_lowest a b,
  differ_digits (a % 2) (b % 2) (omega arith) (omega arith),
  bit_xor-lt k (a / 2) (b / 2) (omega (arith, pow-suc 2 k)) (omega (arith, pow-suc 2 k)),
)
