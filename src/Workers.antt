-- ===== src/Workers.antt =====
-- The loop over the workers in `js_close`, which the managers of src/fib_engine.cc, src/js_engine.cc and
-- src/inference_engine.cc share.
use capy_js.Prelude.{
  Bool-cases, ℕ, zero, suc, ◌≡◌, refl, arith, inl, inr, true, false, ◌==◌, ltb, if◌then◌else◌,
  update, ap, ◌∙◌,
}

-- `stop` of the first `n` workers, in order.
unfoldable pub stop_all : {A : Type 0} → (A → A) → ℕ → (ℕ → A) → ℕ → A
stop_all stop zero workers = workers
stop_all stop (suc n) workers =
    let before = stop_all stop n workers in update before n (stop (before n))

-- Each of them is stopped once, and no other.
pub stop_all_lem :
    {A : Type 0} (stop : A → A) (n : ℕ) (workers : ℕ → A) (i : ℕ)
    → stop_all stop n workers i ≡ (if ltb i n then stop (workers i) else workers i)
unfolding stop_all
stop_all_lem stop zero workers i = ground arith
stop_all_lem stop (suc n) workers i =
    let before = stop_all_lem stop n workers in
    elim (Bool-cases (n == i)) [
      | inl here ↦
          let same : n ≡ i = ground (arith, here) in
          let past : ltb i n ≡ false = ground (arith, same) in
          let in_all : ltb i (suc n) ≡ true = ground (arith, same) in
          let old : stop_all stop n workers n ≡ workers i =
            ap (stop_all stop n workers) same ∙ before i ∙ rw past refl in
          rw (here, in_all, old) refl
      | inr other ↦
          let as_before : ltb i (suc n) ≡ ltb i n = ground (arith, other) in
          rw (other, as_before) (before i)
    ]
