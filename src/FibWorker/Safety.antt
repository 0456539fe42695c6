-- ===== src/FibWorker/Safety.antt =====
-- What the scripts may rely on while the worker runs and after it is stopped.
use capy_js.Prelude.{ℕ, zero, suc, ◌+◌, ◌%◌, ◌^◌, ◌<◌, ◌≡◌, ◌≢◌, refl, arith, ap, inl, inr}
use capy_js.Prelude.{false, not, List, [], ◌∷◌, ◌++◌, map, length, length-append, ◌==◌, size_mod}
use capy_js.Semaphore.{Semaphore}
use capy_js.Spsc.{IsSize}
use capy_js.Spsc.Refine.{contents}
use capy_js.FibWorker.{
  compute_fib, WorkItem, FibResult, result_of, ringing, idle, closed, World, start, Steps,
}
use capy_js.FibWorker.Inv.{Live, held, start-Live, Steps-Inv}

-- The Fibonacci numbers, without a bound.
unfoldable pub fib : ℕ → ℕ
fib zero = zero
fib (suc zero) = suc zero
fib (suc (suc n)) = fib (suc n) + fib n

-- `compute_fib` is the Fibonacci number modulo 2^64, for every argument.
pub compute_fib_lem : (n : ℕ) → compute_fib n ≡ fib n % size_mod
unfolding compute_fib fib
compute_fib_lem zero = refl
compute_fib_lem (suc zero) = refl
compute_fib_lem (suc (suc n)) = omega (arith, compute_fib_lem (suc n), compute_fib_lem n)

length-map : {A B : Type 0} (f : A → B) (xs : List A) → length (map f xs) ≡ length xs
length-map f [] = refl
length-map f (x ∷ xs) = ap suc (length-map f xs)

module _ (S : Semaphore) {N M : ℕ} (items : ℕ → WorkItem) (results : ℕ → FibResult) (n : IsSize N)
    (m : IsSize M) (small : N + M < 2 ^ 31) where
  live : {t : World S} → Steps S N M (start S items results) t → t.main ≢ closed → Live S N M t
  live r o = elim (Steps-Inv S N M small r (start-Live S N M items results n m)) [
    | inl v ↦ v
    | inr d ↦ absurd (o d.shut)
  ]

  -- Until the worker is closed, in every interleaving of the two threads, each accepted job is in
  -- exactly one place, in the order of acceptance: its result has been handed to the manager, or waits
  -- in the result queue, or the thread has it, or the job waits in the submission queue. What is handed
  -- on or waits is what the thread computes of that job, with its id and its callback.
  pub no_job_lost :
      {t : World S}
      → Steps S N M (start S items results) t
      → t.main ≢ closed
      → map result_of t.accepted
        ≡ t.delivered
          ++ (contents M t.result_queue
              ++ (held t.worker ++ map result_of (contents N t.sub_queue.queue)))
  no_job_lost r o = (live r o).kept

  -- The doorbell keeps the event loop alive exactly while an accepted job has not been delivered, as
  -- seen whenever the main thread is outside the worker's methods.
  pub loop_alive_while_owed :
      {t : World S}
      → Steps S N M (start S items results) t
      → t.main ≡ idle
      → (t.referenced ≡ not (length t.accepted == length t.delivered))
        × (length t.accepted ≡ length t.delivered + t.in_flight)
  loop_alive_while_owed {t} r e =
      let v = live r (λ c. cc) in
      let queue = contents N t.sub_queue.queue in
      let sizes : length t.accepted ≡ length t.delivered + t.in_flight = ground (
        arith,
        ap length v.kept,
        length-map result_of t.accepted,
        length-map result_of queue,
        length-append t.delivered
            (contents M t.result_queue ++ (held t.worker ++ map result_of queue)),
        length-append (contents M t.result_queue) (held t.worker ++ map result_of queue),
        length-append (held t.worker) (map result_of queue),
      ) in
      (ground (arith, v.keeps, sizes), sizes)

  -- No result is forgotten: with the main thread outside, no call of the doorbell asked for and none
  -- about to be, the result queue is empty.
  pub no_result_forgotten :
      {t : World S}
      → Steps S N M (start S items results) t
      → t.main ≡ idle
      → t.rung ≡ false
      → t.worker ≢ ringing
      → contents M t.result_queue ≡ []
  no_result_forgotten {t} r e quiet w = ground (arith, live r (λ c. cc))
