-- ===== src/Spsc/Cases.antt =====
-- The calls of `push` and `pop`, by their results.
use capy_js.Prelude.{ℕ, ◌+◌, ◌<◌, ◌≡◌, arith, subst}
use capy_js.Prelude.{true, false, none, some, ◌⊎◌, [], ◌∷◌, ◌++◌}
use capy_js.Prelude.{◌==◌, Bool-cases, inl, inr}
use capy_js.Spsc.{Spsc, next, push, pop}
use capy_js.Spsc.Inv.{IsValid, next-turn, count, push-IsValid, pop-IsValid}
use capy_js.Spsc.Refine.{window_none, window_some, window-update, contents}

module _ {A : Type 0} where
  -- What `pop` does, by what a valid ring holds.
  pub pop_cases :
      {N : ℕ} {q : Spsc A}
      → IsValid N q
      → ((contents N q ≡ []) × (pop N q ≡ (none, q)))
        ⊎ ((x : A) × (q' : Spsc A) × (pop N q ≡ (some x, q'))
            × (contents N q ≡ x ∷ contents N q')
            × IsValid N q')
  unfolding pop contents
  pop_cases {N} {q} v = elim (Bool-cases (q.read == q.write)) [
    | inl none_left ↦ inl (window_none q.buf N q.read (count N q) (ground arith), rw none_left)
    | inr some_left ↦ inr (
      q.buf q.read,
      (pop N q).1,
      rw some_left,
      ground (
        arith,
        next-turn q.read v.size v.read_in,
        window_some q.buf N q.read (count N q) (count N (pop N q).1),
      ),
      pop-IsValid v,
    )
  ]

  -- What `push` does, by whether there is room.
  pub push_cases :
      {N : ℕ} {q : Spsc A} (x : A)
      → IsValid N q
      → ((push N x q ≡ (false, q)) × (count N q + 1 ≡ N))
        ⊎ ((q' : Spsc A) × (push N x q ≡ (true, q'))
            × (count N q + 1 < N)
            × (contents N q' ≡ contents N q ++ x ∷ [])
            × IsValid N q')
  unfolding push contents
  push_cases {N} {q} x v = elim (Bool-cases (next N q.write == q.read)) [
    | inl full ↦ inl (rw full, ground (arith, next-turn q.write v.size v.write_in))
    | inr room ↦ inr (
      (push N x q).1,
      rw room,
      ground (arith, next-turn q.write v.size v.write_in),
      ground (
        arith,
        next-turn q.write v.size v.write_in,
        window-update q.buf N q.write x (count N q) q.read,
      ),
      push-IsValid x v,
    )
  ]

  -- A call of `push` that returned `true` added its item.
  pub push_accepted :
      {N : ℕ} {q : Spsc A} (x : A) (q' : Spsc A)
      → IsValid N q
      → push N x q ≡ (true, q')
      → (contents N q' ≡ contents N q ++ x ∷ []) × IsValid N q'
  push_accepted {N} x q' v e = elim (push_cases x v) [
    | inl (e', _) ↦ cc
    | inr (r, e', _, items, v') ↦
        let same : r ≡ q' = cc in (rw (← same) items, subst (IsValid N) same v')
  ]

  pub push_refused :
      {N : ℕ} {q : Spsc A} (x : A) (q' : Spsc A) → IsValid N q → push N x q ≡ (false, q') → q' ≡ q
  push_refused x q' v e = elim (push_cases x v) [ inl (e', _) ↦ cc | inr (r, e', _, _, _) ↦ cc ]

  -- A call of `pop` that returned `true` took the oldest item.
  pub pop_given :
      {N : ℕ} {q : Spsc A} (x : A) (q' : Spsc A)
      → IsValid N q
      → pop N q ≡ (some x, q')
      → (contents N q ≡ x ∷ contents N q') × IsValid N q'
  pop_given {N} x q' v e = elim (pop_cases v) [
    | inl (_, e') ↦ cc
    | inr (y, r, e', items, v') ↦
        let same : r ≡ q' = cc in
        let item : y ≡ x = cc in (rw (← same, ← item) items, subst (IsValid N) same v')
  ]

  pub pop-none :
      {N : ℕ} {q : Spsc A} (q' : Spsc A)
      → IsValid N q
      → pop N q ≡ (none, q')
      → (contents N q ≡ []) × (q' ≡ q)
  pop-none q' v e = elim (pop_cases v) [ inl (bare, e') ↦ (bare, cc) | inr (y, r, e', _, _) ↦ cc ]
