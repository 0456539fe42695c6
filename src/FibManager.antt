-- ===== src/FibManager.antt =====
-- The pool of workers behind the script's functions: src/fib_engine.cc, with the counters of
-- include/i_manager.h.
use capy_js.Prelude.{
  ℕ, ◌+◌, ◌%◌, Bool, true, false, Option, none, some, ◌==◌, if◌then◌else◌, update, add_size,
}
use capy_js.Workers.{stop_all}
use capy_js.FibWorker.{FibJob, FibResult}
pub mod Progress
mod Tests

pub data JobStatus : Type 0 where
  pending : JobStatus
  done : JobStatus
  failed : JobStatus

-- What `js_dispatch` returns to the script, the failures with their reason.
pub data Dispatched : Type 0 where
  not_a_function : Dispatched
  no_workers : Dispatched
  queue_full : ℕ → Dispatched
  job_id : ℕ → Dispatched

-- `IWorker` is an interface: a state, its `enqueue` of a job with a callback, and its `stop`.
pub record IWorker : Type 1 where
  pub Worker : Type 0
  pub enqueue : FibJob → ℕ → Worker → Bool × Worker
  pub stop : Worker → Worker

module _ (W : IWorker) where
  -- `workers` holds at the numbers below `worker_size`; `job_status` is the map.
  pub record Manager : Type 0 where
    pub workers : ℕ → W.Worker
    pub worker_size : ℕ
    pub job_status : ℕ → Option JobStatus
    pub next_job_id : ℕ
    pub next_worker_idx : ℕ

  unfoldable pub init : (ℕ → W.Worker) → ℕ → Manager
  init workers worker_size = record {
    workers = workers;
    worker_size = worker_size;
    job_status = λ id. none;
    next_job_id = 0;
    next_worker_idx = 0;
  }

  unfoldable pub pick_worker : Manager → ℕ × Manager
  pick_worker m = (
    m.next_worker_idx % m.worker_size,
    record m { next_worker_idx = add_size m.next_worker_idx 1 },
  )

  unfoldable pub js_dispatch : Bool → ℕ → ℕ → Manager → Dispatched × Manager
  js_dispatch is_function value callback m =
      if is_function
      then (if m.worker_size == 0
          then (no_workers, m)
          else (let id = m.next_job_id in
              let (i, m') = pick_worker (record m { next_job_id = add_size id 1 }) in
              let (taken, worker) =
                W.enqueue (record { job_id = id; value = value }) callback (m'.workers i) in
              let stored = update m'.workers i worker in
              if taken
              then (
                job_id id,
                record m' { workers = stored; job_status = update m'.job_status id (some pending) },
              )
              else (queue_full i, record m' { workers = stored })))
      else (not_a_function, m)

  unfoldable pub on_result : FibResult → Manager → Manager
  on_result r m = record m {
    job_status = update m.job_status r.job_id (some (if r.error == 0 then done else failed));
  }

  -- `none` is the string "unknown".
  unfoldable pub js_get_progress : ℕ → Manager → Option JobStatus
  js_get_progress id m = m.job_status id

  unfoldable pub js_close : Manager → Manager
  js_close m = record m { workers = stop_all W.stop m.worker_size m.workers; worker_size = 0 }
