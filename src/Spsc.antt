-- ===== src/Spsc.antt =====
-- include/spsc_queue.h: the ring behind both directions of a worker. `N` is the template's size.
-- `buf_` is a memory: `Inv.in_bounds` shows that every index used is below `N`.
pub mod Inv
pub mod Refine
pub mod Cases
pub mod Threads
mod Tests
use capy_js.Prelude.{ℕ, ◌-◌, ◌^◌, ◌<◌, ◌≡◌, Bool, true, false, Option, none, some}
use capy_js.Prelude.{List, [], ◌∷◌}
use capy_js.Fifo.{Op, put, get, Reply, took, gave}
use capy_js.Prelude.{bit_and, add_size, update, ◌==◌, if◌then◌else◌}

pub record Spsc {ℓ} (A : Type ℓ) : Type ℓ where
  pub buf : ℕ → A
  pub write : ℕ
  pub read : ℕ

-- The two `static_assert`s of the class, of a `size_t` value.
pub record IsSize (N : ℕ) : Type 0 where
  pub power : bit_and N (N - 1) ≡ 0
  pub more : 1 < N
  pub word : N < 2 ^ 64

-- `(i + 1) & (N - 1)`
unfoldable pub next : ℕ → ℕ → ℕ
next N i = bit_and (add_size i 1) (N - 1)

module _ {ℓ} {A : Type ℓ} where
  -- The constructed queue. The cells hold whatever `T` is initialised to.
  unfoldable pub init : (ℕ → A) → Spsc A
  init cells = record { buf = cells; write = 0; read = 0 }

  unfoldable pub push : ℕ → A → Spsc A → Bool × Spsc A
  push N item q =
      if next N q.write == q.read
      then (false, q)
      else (true, record q { buf = update q.buf q.write item; write = next N q.write })

  -- What the code returns beside `out`: `none` is `false`, with `out` left alone.
  unfoldable pub pop : ℕ → Spsc A → Option A × Spsc A
  pop N q =
      if q.read == q.write
      then (none, q)
      else (some (q.buf q.read), record q { read = next N q.read })

  unfoldable pub empty : Spsc A → Bool
  empty q = q.read == q.write

-- A client's calls in order, with what each returns.
unfoldable pub run : {A : Type 0} → ℕ → Spsc A → List (Op A) → List (Reply A)
run N q [] = []
run N q (put x ∷ ops) = let (b, q') = push N x q in took b ∷ run N q' ops
run N q (get ∷ ops) = let (o, q') = pop N q in gave o ∷ run N q' ops
