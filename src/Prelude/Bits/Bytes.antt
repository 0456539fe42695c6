-- ===== src/Prelude/Bits/Bytes.antt =====
-- The masks of one byte.
use Prim.Native.Nat.{ℕ, zero, suc, ◌+◌, ◌*◌, ◌/◌, ◌%◌, ◌≤◌, ◌<◌, bit_and, bit_or}
use mathlib.Core.Path.{◌≡◌, refl}
use mathlib.Core.Bool.{Bool, true, ◌&&◌}
use native.Mathlib.Omega.{arith}
use capy_js.Prelude.Tests.{◌==◌}
use capy_js.Prelude.Bits.Digits.{and_lowest}

-- The masks of one byte, each over all its values.
module _ (f g : ℕ → ℕ) where
  unfoldable pub same_to : ℕ → Bool
  same_to zero = true
  same_to (suc n) = (f n == g n) && same_to n

  pub same_to-eq : (n x : ℕ) → same_to n ≡ true → x < n → f x ≡ g x
  unfolding same_to
  same_to-eq zero x h lt = absurd (omega arith)
  same_to-eq (suc n) x h lt = ground (arith, same_to-eq n x)

pub fin_bit : (b : ℕ) → b < 256 → bit_and b 0x80 ≡ b / 128 * 128
unfolding same_to
fin_bit b = same_to-eq (λ b. bit_and b 0x80) (λ b. b / 128 * 128) 256 b refl

pub low_nibble : (b : ℕ) → b < 256 → bit_and b 0x0f ≡ b % 16
unfolding same_to
low_nibble b = same_to-eq (λ b. bit_and b 0x0f) (λ b. b % 16) 256 b refl

pub low_seven : (b : ℕ) → b < 256 → bit_and b 0x7f ≡ b % 128
unfolding same_to
low_seven b = same_to-eq (λ b. bit_and b 0x7f) (λ b. b % 128) 256 b refl

pub with_top_bit : (b : ℕ) → b < 128 → bit_or 0x80 b ≡ 128 + b
unfolding same_to
with_top_bit b = same_to-eq (λ b. bit_or 0x80 b) (λ b. 128 + b) 128 b refl

bit_and-zero : (bound x : ℕ) → x ≤ bound → bit_and x 0 ≡ 0
bit_and-zero bound zero h = refl
bit_and-zero zero (suc x) h = absurd (omega arith)
bit_and-zero (suc bound) (suc x) h =
    omega (arith, and_lowest (suc x) 0, bit_and-zero bound (suc x / 2) (omega arith))

low_four : (x : ℕ) → bit_and x 15 ≡ x % 16
low_four x = omega (
  arith,
  and_lowest x 15,
  and_lowest (x / 2) 7,
  and_lowest (x / 2 / 2) 3,
  and_lowest (x / 2 / 2 / 2) 1,
  bit_and-zero x (x / 2 / 2 / 2 / 2) (omega arith),
)

-- `x & 0xFF` is the cast to a byte.
pub low_byte : (x : ℕ) → bit_and x 0xff ≡ x % 256
low_byte x = omega (
  arith,
  and_lowest x 255,
  and_lowest (x / 2) 127,
  and_lowest (x / 2 / 2) 63,
  and_lowest (x / 2 / 2 / 2) 31,
  low_four (x / 2 / 2 / 2 / 2),
)

pub low_six : (x : ℕ) → bit_and x 0x3f ≡ x % 64
low_six x = omega (arith, and_lowest x 63, and_lowest (x / 2) 31, low_four (x / 2 / 2))
