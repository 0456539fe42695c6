-- ===== src/Prelude/Bits/Powers.antt =====
-- The test by which a number is a power of two.
use Prim.Native.Nat.{ℕ, zero, suc, ◌-◌, ◌/◌, ◌%◌, ◌^◌, ◌≤◌, ◌<◌, bit_and}
use mathlib.Core.Path.{◌≡◌, refl, ap}
use mathlib.Core.Logic.{inl, inr}
use native.Mathlib.Nat.{pow-suc}
use native.Mathlib.Omega.{arith}
use capy_js.Prelude.Tests.{◌==◌, Bool-cases}
use capy_js.Prelude.Bits.Digits.{and_lowest}

bit_and_self : (bound x : ℕ) → x ≤ bound → bit_and x x ≡ x
bit_and_self bound zero h = refl
bit_and_self zero (suc x) h = absurd (omega arith)
bit_and_self (suc bound) (suc x) h =
    omega (arith, and_lowest (suc x) (suc x), bit_and_self bound (suc x / 2) (omega arith))

-- `x & (x - 1)` clears the lowest one, so a number above 1 that it takes to 0 is even, and its half
-- has the same property.
half_of_power :
    (x : ℕ) → 1 < x → bit_and x (x - 1) ≡ 0 → (x % 2 ≡ 0) × (bit_and (x / 2) (x / 2 - 1) ≡ 0)
half_of_power x more e = elim (Bool-cases (x % 2 == 0)) [
  | inl even ↦ (
    ground arith,
    omega (
      arith,
      and_lowest x (x - 1),
      ap (bit_and (x / 2)) (let odd : (x - 1) / 2 ≡ x / 2 - 1 = ground arith in odd),
    ),
  )
  | inr odd ↦ absurd (
      ground (
        arith,
        and_lowest x (x - 1),
        ap (bit_and (x / 2)) (let whole : (x - 1) / 2 ≡ x / 2 = ground arith in whole),
        bit_and_self x (x / 2) (omega arith),
      ))
]

find_power : (bound x : ℕ) → x ≤ bound → 0 < x → bit_and x (x - 1) ≡ 0 → (k : ℕ) × (x ≡ 2 ^ k)
find_power bound zero h pos e = absurd (omega arith)
find_power zero (suc x) h pos e = absurd (omega arith)
find_power bound (suc zero) h pos e = (0, refl)
find_power (suc bound) (suc (suc x)) h pos e =
    let (even, rest) = half_of_power (suc (suc x)) (omega arith) e in
    let (k, half) = find_power bound (suc (suc x) / 2) (omega arith) (omega arith) rest in
    (suc k, omega (arith, pow-suc 2 k))

-- The test `(x & (x - 1)) == 0` finds the powers of two.
pub power_of_two : (x : ℕ) → 0 < x → bit_and x (x - 1) ≡ 0 → (k : ℕ) × (x ≡ 2 ^ k)
power_of_two x pos e = find_power x x (omega arith) pos e
