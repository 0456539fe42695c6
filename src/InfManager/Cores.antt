-- ===== src/InfManager/Cores.antt =====
-- The cores that `spawn_workers` gives to the workers.
use capy_js.Prelude.{
  false, ℕ, zero, suc, ◌+◌, ◌-◌, ◌*◌, ◌/◌, ◌≤◌, ◌<◌, ◌≡◌, refl, arith, some, List, [], ◌∷◌, All,
  ◌==◌, ltb, if◌then◌else◌,
}
use native.Mathlib.Nat.{zero-mul, suc-mul, one-mul, mul-div-le, le-div_iff_mul-le}
use capy_js.InfManager.{Spawned, spawn, spawn_workers}

-- No core is given twice: each worker's cores end before those of every later one start.
abbrev pub Apart : List Spawned → Type 0
Apart [] = Unit
Apart (w ∷ ws) = All (λ v. w.core_start + w.core_count ≤ v.core_start) ws × Apart ws

-- `last` is the end of the cores of `n` workers.
abbrev last : ℕ → ℕ → ℕ → ℕ
last zero cursor each = cursor
last (suc n) cursor each = last n (cursor + each) each

last-ge : (n cursor each : ℕ) → cursor ≤ last n cursor each
last-ge zero cursor each = omega arith
last-ge (suc n) cursor each = omega (arith, last-ge n (cursor + each) each)

All-map :
    {A : Type 0} (P Q : A → Type 0) (xs : List A) → ((x : A) → P x → Q x) → All P xs → All Q xs
All-map P Q [] f h = tt
All-map P Q (x ∷ xs) f (h, hs) = (f x h, All-map P Q xs f hs)

spawn_lem :
    (n i cursor each n_ctx n_batch : ℕ)
    → Apart (spawn n i cursor each n_ctx n_batch)
      × All
          (λ w.
            (cursor ≤ w.core_start)
            × (w.core_start + w.core_count ≤ last n cursor each)
            × (w.core_count ≡ each))
          (spawn n i cursor each n_ctx n_batch)
unfolding spawn
spawn_lem zero i cursor each n_ctx n_batch = (tt, tt)
spawn_lem (suc n) i cursor each n_ctx n_batch =
    let (apart, rest) = spawn_lem n (i + 1) (cursor + each) each n_ctx n_batch in
    (
      (All-map _ _ _ (λ w h. h.0) rest, apart),
      (
        (omega arith, omega (arith, last-ge n (cursor + each) each), refl),
        All-map _ _ _ (λ w h. (omega (arith, h.0), h.1, h.2)) rest,
      ),
    )

last-mul : (n cursor each : ℕ) → last n cursor each ≡ cursor + n * each
last-mul zero cursor each = omega (arith, zero-mul each)
last-mul (suc n) cursor each = omega (arith, last-mul n (cursor + each) each, suc-mul n each)

-- With one worker or more, and no more workers than processors less one, no core is given twice and
-- none is 0 or past the last one: the worker's cores are some of 1 to `processors - 1`, as many for each
-- worker.
pub spawned_cores :
    (processors count n_ctx n_batch : ℕ)
    → 0 < count
    → count + 1 ≤ processors
    → (ws : List Spawned) × (spawn_workers processors count n_ctx n_batch ≡ some ws)
      × Apart ws
      × All
          (λ w.
            (1 ≤ w.core_start)
            × (w.core_start + w.core_count ≤ processors)
            × (w.core_count ≡ (processors - 1) / count))
          ws
unfolding spawn_workers
spawned_cores processors count n_ctx n_batch some_worker enough =
    let total = processors - 1 in
    let each = total / count in
    let batch = if n_batch == 0 then n_ctx else n_batch in
    let (apart, rest) = spawn_lem count 0 1 each n_ctx batch in
    let one_each : 1 ≤ each = (le-div_iff_mul-le some_worker).1 (omega (arith, one-mul count)) in
    let all : last count 1 each ≤ processors =
      omega (arith, last-mul count 1 each, mul-div-le total count) in
    let some_count : count == 0 ≡ false = ground (arith, some_worker) in
    let many : ltb (processors - 1) 1 ≡ false = ground (arith, enough, some_worker) in
    let some_cores : ltb each 1 ≡ false = ground (arith, one_each) in
    (
      spawn count 0 1 each n_ctx batch,
      rw (spawn_workers, some_count, many, some_cores) refl,
      apart,
      All-map _ _ _ (λ w h. (h.0, omega (arith, h.1, all), h.2)) rest,
    )
