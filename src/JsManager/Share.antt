-- ===== src/JsManager/Share.antt =====
-- The shares of `s` workers that take turns.
use capy_js.Prelude.{
  Bool-cases, ℕ, ◌+◌, ◌*◌, ◌%◌, ◌/◌, ◌<◌, ◌≡◌, arith, inl, inr, ◌==◌, ltb, if◌then◌else◌, ap, sym,
  ◌∙◌,
}
use native.Mathlib.Nat.{
  div-add-mod, mul-add-div, mul-add-mod_self_left, mod-lt, mod-eq_of_lt, zero-div, zero-mod,
  div-eq_of_lt, div_self, mod_self,
}

-- The turns of worker `i` among the first `n`.
abbrev pub share : ℕ → ℕ → ℕ → ℕ
share s i n = n / s + (if ltb i (n % s) then 1 else 0)

-- The turn after `n` is of the next worker, or of the first one again.
next_turn :
    (s n : ℕ) → 0 < s → ((n + 1) % s ≡ (n % s + 1) % s) × ((n + 1) / s ≡ n / s + (n % s + 1) / s)
next_turn s n h =
    let sum : s * (n / s) + (n % s + 1) ≡ n + 1 = omega (arith, div-add-mod n s) in
    (
      ap (λ x. x % s) (sym sum) ∙ mul-add-mod_self_left s (n / s) (n % s + 1),
      ap (λ x. x / s) (sym sum) ∙ mul-add-div h (n / s) (n % s + 1),
    )

-- One more turn.
pub share-suc :
    (s i n : ℕ) → i < s → share s i (n + 1) ≡ (if n % s == i then 1 + share s i n else share s i n)
share-suc s i n h =
    let (m, d) = next_turn s n (omega (arith, h)) in
    let small = mod-lt n {m = s} (omega (arith, h)) in
    elim (Bool-cases (n % s + 1 == s)) [
      | inl last ↦
          let top : n % s + 1 ≡ s = ground (arith, last) in
          let m0 : (n + 1) % s ≡ 0 = m ∙ rw top (mod_self s) in
          let d1 : (n + 1) / s ≡ n / s + 1 =
            d ∙ rw top (ap (λ x. n / s + x) (div_self (omega (arith, h)))) in
          rw (m0, d1) (ground (arith, h, top))
      | inr inner ↦
          let below : n % s + 1 < s = ground (arith, inner, small) in
          let m0 : (n + 1) % s ≡ n % s + 1 = m ∙ mod-eq_of_lt below in
          let d1 : (n + 1) / s ≡ n / s =
            d ∙ ap (λ x. n / s + x) (div-eq_of_lt below) ∙ omega arith in
          rw (m0, d1) (ground (arith, h, below))
    ]

pub share-zero : (s i : ℕ) → share s i 0 ≡ 0
share-zero s i = rw (zero-div s, zero-mod s) (ground arith)
