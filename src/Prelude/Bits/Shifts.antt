-- ===== src/Prelude/Bits/Shifts.antt =====
-- Masks of the lowest bits, and a byte put behind a shifted number.
use Prim.Native.Nat.{ℕ, zero, suc, ◌+◌, ◌-◌, ◌*◌, ◌/◌, ◌^◌, ◌≤◌, ◌<◌, bit_and, bit_or}
use mathlib.Core.Path.{◌≡◌, refl, ap, ap₂, ◌∙◌}
use native.Mathlib.Nat.{pow-suc}
use native.Mathlib.Omega.{arith}
use capy_js.Prelude.Bits.Digits.{and_lowest, or_lowest, half_mask, half_power}

-- `x & (2^k - 1)` at the two places where a ring index is reduced: below the mask, and just past it.
pub bit_and_below : (k x : ℕ) → x < 2 ^ k → bit_and x (2 ^ k - 1) ≡ x
bit_and_below zero zero h = refl
bit_and_below zero (suc x) h = absurd (omega arith)
bit_and_below (suc k) x h = omega (
  arith,
  pow-suc 2 k,
  and_lowest x (2 ^ suc k - 1),
  ap (bit_and (x / 2)) (half_mask k),
  bit_and_below k (x / 2) (omega (arith, pow-suc 2 k)),
)

pub bit_and_at : (k : ℕ) → bit_and (2 ^ k) (2 ^ k - 1) ≡ 0
bit_and_at zero = refl
bit_and_at (suc k) = omega (
  arith,
  pow-suc 2 k,
  and_lowest (2 ^ suc k) (2 ^ suc k - 1),
  ap₂ bit_and (half_power k) (half_mask k),
  bit_and_at k,
)

bit_or-zero : (bound x : ℕ) → x ≤ bound → bit_or x 0 ≡ x
bit_or-zero bound zero h = refl
bit_or-zero zero (suc x) h = absurd (omega arith)
bit_or-zero (suc bound) (suc x) h =
    omega (arith, or_lowest (suc x) 0, bit_or-zero bound (suc x / 2) (omega arith))

-- `(q << k) | r` is a sum where `r` fits the `k` bits that the shift has cleared.
pub bit_or_shifted : (k q r : ℕ) → r < 2 ^ k → bit_or (q * 2 ^ k) r ≡ q * 2 ^ k + r
bit_or_shifted zero q zero h = bit_or-zero (q * 1) (q * 1) (omega arith) ∙ omega arith
bit_or_shifted zero q (suc r) h = absurd (omega arith)
bit_or_shifted (suc k) q r h = omega (
  arith,
  or_lowest (q * 2 ^ suc k) r,
  shifted,
  ap (λ (x : ℕ). bit_or x (r / 2)) halved,
  bit_or_shifted k q (r / 2) (omega (arith, pow-suc 2 k)),
)
  where
    shifted : q * 2 ^ suc k ≡ 2 * (q * 2 ^ k)
    shifted = omega (arith, ap (λ (p : ℕ). q * p) (pow-suc 2 k))

    halved : q * 2 ^ suc k / 2 ≡ q * 2 ^ k
    halved = omega (arith, shifted)
