-- ===== src/Util/Rounds.antt =====
-- The functions of the rounds of `sha1`, against those of FIPS 180.
use capy_js.Prelude.{
  ℕ, zero, suc, ◌+◌, ◌-◌, ◌/◌, ◌%◌, ◌^◌, ◌<◌, ◌≤◌, ◌≡◌, refl, arith, bit_and, bit_or, bit_xor, min,
  ltb, if◌then◌else◌,
}
use Prim.Native.Nat.{max, differ, bit_and-bitwise}
use native.Mathlib.Nat.{pow-suc}
use capy_js.Prelude.Bits.Digits.{and_lowest, or_lowest, xor_lowest}
use native.Mathlib.Decide.{dec_lt}
use capy_js.Util.Sha1.{f_of}

-- Two functions that agree on all binary digits.
agree3 :
    (f g : ℕ → ℕ → ℕ → ℕ)
    → (f 0 0 0 ≡ g 0 0 0)
      × (f 0 0 1 ≡ g 0 0 1)
      × (f 0 1 0 ≡ g 0 1 0)
      × (f 0 1 1 ≡ g 0 1 1)
      × (f 1 0 0 ≡ g 1 0 0)
      × (f 1 0 1 ≡ g 1 0 1)
      × (f 1 1 0 ≡ g 1 1 0)
      × (f 1 1 1 ≡ g 1 1 1)
    → (x y z : ℕ) → x < 2
    → y < 2
    → z < 2
    → f x y z ≡ g x y z
agree3 f g (e0, e1, e2, e3, e4, e5, e6, e7) zero zero zero hx hy hz = e0
agree3 f g (e0, e1, e2, e3, e4, e5, e6, e7) zero zero (suc zero) hx hy hz = e1
agree3 f g (e0, e1, e2, e3, e4, e5, e6, e7) zero (suc zero) zero hx hy hz = e2
agree3 f g (e0, e1, e2, e3, e4, e5, e6, e7) zero (suc zero) (suc zero) hx hy hz = e3
agree3 f g (e0, e1, e2, e3, e4, e5, e6, e7) (suc zero) zero zero hx hy hz = e4
agree3 f g (e0, e1, e2, e3, e4, e5, e6, e7) (suc zero) zero (suc zero) hx hy hz = e5
agree3 f g (e0, e1, e2, e3, e4, e5, e6, e7) (suc zero) (suc zero) zero hx hy hz = e6
agree3 f g (e0, e1, e2, e3, e4, e5, e6, e7) (suc zero) (suc zero) (suc zero) hx hy hz = e7
agree3 f g e (suc (suc x)) y z hx hy hz = absurd (omega arith)
agree3 f g e x (suc (suc y)) z hx hy hz = absurd (omega arith)
agree3 f g e x y (suc (suc z)) hx hy hz = absurd (omega arith)

differ-lt : (x y : ℕ) → x < 2 → y < 2 → differ x y < 2
differ-lt zero zero hx hy = omega arith
differ-lt zero (suc zero) hx hy = omega arith
differ-lt (suc zero) zero hx hy = omega arith
differ-lt (suc zero) (suc zero) hx hy = omega arith
differ-lt (suc (suc x)) y hx hy = absurd (omega arith)
differ-lt x (suc (suc y)) hx hy = absurd (omega arith)

-- Each operation on the lowest digit and on the rest.
and_digit :
    (a b : ℕ)
    → (bit_and a b / 2 ≡ bit_and (a / 2) (b / 2)) × (bit_and a b % 2 ≡ min (a % 2) (b % 2))
and_digit a b = omega (arith, and_lowest a b)

or_digit :
    (a b : ℕ) → (bit_or a b / 2 ≡ bit_or (a / 2) (b / 2)) × (bit_or a b % 2 ≡ max (a % 2) (b % 2))
or_digit a b = omega (arith, or_lowest a b)

xor_digit :
    (a b : ℕ)
    → (bit_xor a b / 2 ≡ bit_xor (a / 2) (b / 2)) × (bit_xor a b % 2 ≡ differ (a % 2) (b % 2))
xor_digit a b = omega (arith, xor_lowest a b, differ-lt (a % 2) (b % 2) (omega arith) (omega arith))

same_digits : (a b : ℕ) → a / 2 ≡ b / 2 → a % 2 ≡ b % 2 → a ≡ b
same_digits a b half digit = omega arith

-- FIPS 180 has exclusive or in both, where the code has or.
abbrev pub choose : ℕ → ℕ → ℕ → ℕ → ℕ
choose width x y z = bit_xor (bit_and x y) (bit_and (2 ^ width - 1 - x) z)

abbrev pub majority : ℕ → ℕ → ℕ → ℕ
majority x y z = bit_xor (bit_xor (bit_and x y) (bit_and x z)) (bit_and y z)

zero_and : (y : ℕ) → bit_and 0 y ≡ 0
zero_and y = simp bit_and-bitwise refl

choose_lem :
    (k x y z : ℕ) → x < 2 ^ k → bit_or (bit_and x y) (bit_and (2 ^ k - 1 - x) z) ≡ choose k x y z
choose_lem zero zero y z h = rw (zero_and y, zero_and z) refl
choose_lem zero (suc x) y z h = absurd (omega arith)
choose_lem (suc k) x y z h =
    let rest = choose_lem k (x / 2) (y / 2) (z / 2) (omega (arith, pow-suc 2 k)) in
    let mask : (2 ^ suc k - 1 - x) / 2 ≡ 2 ^ k - 1 - x / 2 = omega (arith, pow-suc 2 k) in
    let flip : (2 ^ suc k - 1 - x) % 2 ≡ 1 - x % 2 = omega (arith, pow-suc 2 k) in
    let xy = and_digit x y in
    let xz = and_digit (2 ^ suc k - 1 - x) z in
    let o = or_digit (bit_and x y) (bit_and (2 ^ suc k - 1 - x) z) in
    let d = xor_digit (bit_and x y) (bit_and (2 ^ suc k - 1 - x) z) in
    same_digits _ _ (rw (o.0, d.0, xy.0, xz.0, mask) rest) (
      rw (o.1, d.1, xy.1, xz.1, flip)
        (agree3 (λ a b c. max (min a b) (min (1 - a) c)) (λ a b c. differ (min a b) (min (1 - a) c))
          (refl, refl, refl, refl, refl, refl, refl, refl) (x % 2) (y % 2) (z % 2) (omega arith)
          (omega arith) (omega arith)))

majority_lem :
    (bound x y z : ℕ)
    → x + y + z ≤ bound
    → bit_or (bit_or (bit_and x y) (bit_and x z)) (bit_and y z) ≡ majority x y z
majority_lem zero zero zero zero h = refl
majority_lem zero (suc x) y z h = absurd (omega arith)
majority_lem zero x (suc y) z h = absurd (omega arith)
majority_lem zero x y (suc z) h = absurd (omega arith)
majority_lem (suc bound) x y z h = elim (dec_lt 0 (x + y + z)) [
  | yes some_digit ↦
      let rest = majority_lem bound (x / 2) (y / 2) (z / 2) (omega arith) in
      let xy = and_digit x y in
      let xz = and_digit x z in
      let yz = and_digit y z in
      let o1 = or_digit (bit_and x y) (bit_and x z) in
      let d1 = xor_digit (bit_and x y) (bit_and x z) in
      let o = or_digit (bit_or (bit_and x y) (bit_and x z)) (bit_and y z) in
      let d = xor_digit (bit_xor (bit_and x y) (bit_and x z)) (bit_and y z) in
      same_digits _ _ (rw (o.0, d.0, o1.0, d1.0, xy.0, xz.0, yz.0) rest) (
        rw (o.1, d.1, o1.1, d1.1, xy.1, xz.1, yz.1)
          (agree3 (λ a b c. max (max (min a b) (min a c)) (min b c))
            (λ a b c. differ (differ (min a b) (min a c)) (min b c))
            (refl, refl, refl, refl, refl, refl, refl, refl) (x % 2) (y % 2) (z % 2) (omega arith)
            (omega arith) (omega arith)))
  | no nothing ↦ majority_lem bound x y z (omega arith)
]

-- On words of 32 bits the function of each round is that of FIPS 180: a choice between the second and
-- the third by the bits of the first in rounds 0 to 19, the majority in rounds 40 to 59, and the parity
-- in the others.
pub f_of_lem :
    (i b c d : ℕ)
    → b < 2 ^ 32
    → f_of i b c d ≡ (
        if ltb i 20
        then choose 32 b c d
        else (if ltb i 40
            then bit_xor (bit_xor b c) d
            else (if ltb i 60 then majority b c d else bit_xor (bit_xor b c) d)))
unfolding f_of
f_of_lem i b c d h = rw (choose_lem 32 b c d h, majority_lem (b + c + d) b c d (omega arith)) refl
