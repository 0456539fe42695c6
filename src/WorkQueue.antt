-- ===== src/WorkQueue.antt =====
-- include/work_queue.h: the submission queue of a worker, a ring with a semaphore and a stop flag.
pub mod Cases
pub mod Drain
pub mod Threads
mod Tests
use capy_js.Prelude.{ℕ, zero, suc, Bool, true, false, Option, none, some, List, [], ◌∷◌}
use capy_js.Prelude.{if◌then◌else◌}
use capy_js.Spsc
use capy_js.Spsc.{Spsc}
use capy_js.Semaphore.{Semaphore}

-- The loop of `drain` on fuel: the items that it calls `fn` on, in order, and the ring left.
unfoldable pub drain_loop : {A : Type 0} → ℕ → ℕ → Spsc A → List A × Spsc A
drain_loop N zero q = ([], q)
drain_loop N (suc fuel) q =
    let (out, q') = Spsc.pop N q in
    elim out [
      | none ↦ ([], q')
      | some item ↦ let (items, q'') = drain_loop N fuel q' in (item ∷ items, q'')
    ]

module _ (S : Semaphore) where
  open S use {Sem, sem_init, sem_post, sem_wait}

  pub record WorkQueue (A : Type 0) : Type 0 where
    pub queue : Spsc A
    pub sem : Sem
    pub stopped : Bool

  -- What a call of `dequeue` comes to: it sleeps in `uv_sem_wait`, or returns, where `none` is
  -- `false` with `out` left alone.
  pub data Dequeued (A : Type 0) : Type 0 where
    asleep : Dequeued A
    returned : Option A → Dequeued A

  module _ {A : Type 0} where
    unfoldable pub init : (ℕ → A) → WorkQueue A
    init cells = record { queue = Spsc.init cells; sem = sem_init 0; stopped = false }

    unfoldable pub enqueue : ℕ → A → WorkQueue A → Bool × WorkQueue A
    enqueue N item w =
        let (accepted, q) = Spsc.push N item w.queue in
        if accepted
        then (true, record w { queue = q; sem = sem_post w.sem })
        else (false, record w { queue = q })

    unfoldable pub dequeue : ℕ → WorkQueue A → Dequeued A × WorkQueue A
    dequeue N w = elim (sem_wait w.sem) [
      | none ↦ (asleep, w)
      | some s ↦
          if w.stopped
          then (returned none, record w { sem = s })
          else (let (out, q) = Spsc.pop N w.queue in
              (returned out, record w { queue = q; sem = s }))
    ]

    unfoldable pub stop : WorkQueue A → WorkQueue A
    stop w = record w { stopped = true; sem = sem_post w.sem }

    -- A ring of size `N` holds fewer than `N` items, so `N` rounds are enough.
    unfoldable pub drain : ℕ → WorkQueue A → List A × WorkQueue A
    drain N w = let (items, q) = drain_loop N N w.queue in (items, record w { queue = q })

    unfoldable pub empty : WorkQueue A → Bool
    empty w = Spsc.empty w.queue
