-- ===== src/FibWorker/Stop.antt =====
-- Where `stop` does not return: the thread that it joins waits for the thread that joins it.
use capy_js.Prelude.{Bool, ℕ, ◌-◌, ◌≡◌, arith, inl, inr, length}
use capy_js.Semaphore.{Semaphore}
use capy_js.Spsc.Inv.{IsValid}
use capy_js.Spsc.Refine.{contents, length-contents}
use capy_js.Spsc.Cases.{push_cases, push_refused}
use capy_js.FibWorker.{
  FibResult, pushing, joining, World, Step, enqueue_ok, enqueue_full, run_take, run_leave,
  run_compute, run_push, run_spin, run_ring, ready_start, ready_pop, ready_next, ready_end,
  stop_begin, stop_within, stop_end, Steps, here, later,
}

module _ (S : Semaphore) (N M : ℕ) where
  -- The main thread is in the join of `stop`, and the worker spins on a full result queue.
  pub record Stuck (within : Bool) (r : FibResult) (s : World S) : Type 0 where
    pub valid : IsValid M s.result_queue
    pub joins : s.main ≡ joining within
    pub spins : s.worker ≡ pushing r
    pub full : length (contents M s.result_queue) ≡ M - 1

  Step-Stuck :
      {within : Bool} {r : FibResult} {s t : World S}
      → Step S N M s t
      → Stuck within r s
      → Stuck within r t
  Step-Stuck (enqueue_ok item q (inl e) p) d = cc d.joins
  Step-Stuck (enqueue_ok item q (inr e) p) d = cc d.joins
  Step-Stuck (enqueue_full item q (inl e) p) d = cc d.joins
  Step-Stuck (enqueue_full item q (inr e) p) d = cc d.joins
  Step-Stuck (run_take item q e p) d = cc d.spins
  Step-Stuck (run_leave q e p) d = cc d.spins
  Step-Stuck (run_compute item e) d = cc d.spins
  Step-Stuck {s = s} (run_push r q e p) d = elim (push_cases r d.valid) [
    | inl (e', full) ↦ cc
    | inr (q', e', room, _, _) ↦ absurd (omega (arith, d.full, length-contents M s.result_queue))
  ]
  Step-Stuck (run_spin r q e p) d = rw (push_refused r q d.valid p) d
  Step-Stuck (run_ring e) d = cc d.spins
  Step-Stuck (ready_start e r) d = cc d.joins
  Step-Stuck (ready_pop r q e p) d = cc d.joins
  Step-Stuck (ready_next e) d = cc d.joins
  Step-Stuck (ready_end q e p) d = cc d.joins
  Step-Stuck (stop_begin e) d = cc d.joins
  Step-Stuck (stop_within e) d = cc d.joins
  Step-Stuck (stop_end other e w) d = cc d.spins

  -- If `stop` joins a worker that is about to push a result to a full result queue, it never returns:
  -- in whatever way the two threads go on, the main thread stays in the join and the worker in its
  -- spin, since only the main thread empties that queue.
  pub stop_can_hang :
      {within : Bool} {r : FibResult} {s t : World S}
      → IsValid M s.result_queue
      → s.main ≡ joining within
      → s.worker ≡ pushing r
      → length (contents M s.result_queue) ≡ M - 1
      → Steps S N M s t
      → (t.main ≡ joining within) × (t.worker ≡ pushing r)
  stop_can_hang {within} {r} {s} v j p full steps = let d = go steps in (d.joins, d.spins)
    where
      go : {t : World S} → Steps S N M s t → Stuck within r t
      go here = record { valid = v; joins = j; spins = p; full = full }
      go (later rest st) = Step-Stuck st (go rest)
