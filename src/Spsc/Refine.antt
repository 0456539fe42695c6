-- ===== src/Spsc/Refine.antt =====
-- A valid ring of size `N` is a bounded FIFO of capacity `N - 1`.
use capy_js.Prelude.{ℕ, zero, suc, ◌+◌, ◌-◌, ◌≤◌, ◌<◌, ◌≡◌, refl, arith, ap, ap₂, ◌∙◌}
use capy_js.Prelude.{List, [], ◌∷◌, ◌++◌, length}
use capy_js.Prelude.{◌==◌, if◌then◌else◌, ltb, update, Bool-cases, inl, inr}
use capy_js.Fifo
use capy_js.Fifo.{Op, put, get}
use capy_js.Spsc.{Spsc, push, pop, run}
use capy_js.Spsc.Inv.{IsValid, turn, next-turn, count, push-IsValid, pop-IsValid}

-- The `c`-th cell from `h` on, going round.
abbrev pub cell : ℕ → ℕ → ℕ → ℕ
cell N h c = if ltb (h + c) N then h + c else h + c - N

module _ {A : Type 0} where
  abbrev pub window : (ℕ → A) → ℕ → ℕ → ℕ → List A
  window buf N h zero = []
  window buf N h (suc c) = buf h ∷ window buf N (turn N h) c

  pub length-window : (buf : ℕ → A) (N h c : ℕ) → length (window buf N h c) ≡ c
  length-window buf N h zero = refl
  length-window buf N h (suc c) = ap suc (length-window buf N (turn N h) c)

  pub window_none : (buf : ℕ → A) (N h c : ℕ) → c ≡ 0 → window buf N h c ≡ []
  window_none buf N h zero e = refl
  window_none buf N h (suc c) e = absurd (omega arith)

  pub window_some :
      (buf : ℕ → A) (N h c d : ℕ) → c ≡ suc d → window buf N h c ≡ buf h ∷ window buf N (turn N h) d
  window_some buf N h c d e = rw e

  -- A write just past the window extends it; the cells of the window stay as they were.
  pub window-update :
      (buf : ℕ → A) (N x : ℕ) (item : A) (c h : ℕ)
      → h < N
      → c < N
      → x ≡ cell N h c
      → window (update buf x item) N h (suc c) ≡ window buf N h c ++ item ∷ []
  window-update buf N x item zero h hh hc e = ground arith
  window-update buf N x item (suc c) h hh hc e =
      ap₂ ◌∷◌ (ground arith)
        (window-update buf N x item c (turn N h) (ground arith) (omega arith) (ground arith))

  -- Reading one cell further.
  pub window-snoc :
      (buf : ℕ → A) (N c h : ℕ)
      → h < N
      → c < N
      → window buf N h (suc c) ≡ window buf N h c ++ buf (cell N h c) ∷ []
  window-snoc buf N zero h hh hc = ground arith
  window-snoc buf N (suc c) h hh hc = ap (◌∷◌ (buf h)) (
      window-snoc buf N c (turn N h) (ground arith) (omega arith)
      ∙ ap (λ (i : ℕ). window buf N (turn N h) c ++ buf i ∷ []) (ground arith))

  -- The cell behind the window can be written without changing what the window shows.
  pub window-update_outside :
      (buf : ℕ → A) (N x : ℕ) (item : A) (c h d : ℕ)
      → h < N
      → c ≤ d
      → d < N
      → x ≡ cell N h d
      → window (update buf x item) N h c ≡ window buf N h c
  window-update_outside buf N x item zero h d hh hc hd e = refl
  window-update_outside buf N x item (suc c) h d hh hc hd e = ap₂ ◌∷◌ (ground arith) (
      window-update_outside buf N x item c (turn N h) (d - 1) (ground arith) (omega arith)
        (omega arith) (ground arith))

  unfoldable pub contents : ℕ → Spsc A → List A
  contents N q = window q.buf N q.read (count N q)

  pub length-contents : (N : ℕ) (q : Spsc A) → length (contents N q) ≡ count N q
  unfolding contents
  length-contents N q = length-window q.buf N q.read (count N q)

  pub push_refines :
      {N : ℕ} {q : Spsc A} (item : A)
      → IsValid N q
      → ((push N item q).0, contents N (push N item q).1) ≡ Fifo.push (N - 1) item (contents N q)
  unfolding push Fifo.push contents
  push_refines {N} {q} item v = ground (
    arith,
    next-turn q.write v.size v.write_in,
    length-window q.buf N q.read (count N q),
    window-update q.buf N q.write item (count N q) q.read,
  )

  pub pop_refines :
      {N : ℕ} {q : Spsc A}
      → IsValid N q
      → ((pop N q).0, contents N (pop N q).1) ≡ Fifo.pop (contents N q)
  unfolding pop Fifo.pop contents
  pop_refines {N} {q} v = elim (Bool-cases (q.read == q.write)) [
    | inl none_left ↦
        ground (arith, window_none q.buf N q.read (count N q), window_none q.buf N q.read 0)
    | inr some_left ↦ ground (
      arith,
      next-turn q.read v.size v.read_in,
      window_some q.buf N q.read (count N q) (count N (pop N q).1),
    )
  ]

  -- No sequence of pushes and pops tells a valid ring of size `N` from a FIFO of capacity `N - 1`
  -- that holds the same items.
  pub run_refines :
      {N : ℕ} (ops : List (Op A)) {q : Spsc A}
      → IsValid N q
      → run N q ops ≡ Fifo.run (N - 1) (contents N q) ops
  unfolding run Fifo.run
  run_refines [] v = refl
  run_refines (put x ∷ ops) v = rw (run_refines ops (push-IsValid x v), ← push_refines x v)
  run_refines (get ∷ ops) v = rw (run_refines ops (pop-IsValid v), ← pop_refines v)
