-- ===== src/FibWorker.antt =====
-- A worker thread with its two queues: src/workers/fib_worker.cc. The main thread enqueues jobs and
-- gets results from the doorbell's callback, and the worker computes. A call of one of the queues is
-- one step here: Spsc/Threads and WorkQueue/Threads take the calls apart.
use capy_js.Prelude.{
  ℕ, zero, suc, ◌+◌, ◌-◌, ◌%◌, ◌^◌, ◌≡◌, ◌⊎◌, Bool, true, false, none, some, List, [], ◌∷◌, ◌++◌,
  map, ◌==◌, if◌then◌else◌, add_size,
}
use capy_js.Semaphore.{Semaphore}
use capy_js.Spsc
use capy_js.Spsc.{Spsc}
use capy_js.WorkQueue
use capy_js.WorkQueue.{WorkQueue, returned, enqueue, dequeue, drain, drain_loop}
pub mod Inv
pub mod Safety
pub mod Stop
mod Tests

unfoldable pub compute_fib : ℕ → ℕ
compute_fib zero = zero
compute_fib (suc zero) = suc zero
compute_fib (suc (suc n)) = add_size (compute_fib (suc n)) (compute_fib n)

pub record FibJob : Type 0 where
  pub job_id : ℕ
  pub value : ℕ

-- A callback is the name of the script's function.
pub record WorkItem : Type 0 where
  pub job : FibJob
  pub callback : ℕ

pub record FibResult : Type 0 where
  pub job_id : ℕ
  pub result : ℕ
  pub error : ℕ
  pub callback : ℕ

-- The body of the loop in `run`, up to the push.
unfoldable pub result_of : WorkItem → FibResult
result_of item = record {
  job_id = item.job.job_id;
  result = compute_fib item.job.value;
  error = 0;
  callback = item.callback;
}

-- Where the worker's thread is in `run`.
pub data Worker : Type 0 where
  waiting : Worker
  computing : WorkItem → Worker
  pushing : FibResult → Worker
  ringing : Worker
  exited : Worker

-- Where the main thread is: outside the worker's methods, in the loop of `on_result_ready`, in the
-- call of `on_result` (where a script may enqueue more), in the join of `stop`, or past `stop`.
-- `joining true` is a `stop` that the script has called from inside `on_result`: what is left of
-- `on_result_ready` after it finds the ring empty, and counts down on a worker that is about to go.
pub data Main : Type 0 where
  idle : Main
  draining : Main
  calling : Main
  joining : Bool → Main
  closed : Main

-- `rung` is a call of the doorbell's callback that `uv_async_send` has asked for and the loop has not
-- made; `referenced` is what `uv_ref` and `uv_unref` leave on it.
pub record World (S : Semaphore) : Type 0 where
  pub sub_queue : WorkQueue S WorkItem
  pub result_queue : Spsc FibResult
  pub worker : Worker
  pub main : Main
  pub in_flight : ℕ
  pub referenced : Bool
  pub rung : Bool
  pub accepted : List WorkItem
  pub delivered : List FibResult
  pub freed : List ℕ

module _ (S : Semaphore) where
  unfoldable pub start : (ℕ → WorkItem) → (ℕ → FibResult) → World S
  start items results = record {
    sub_queue = WorkQueue.init S items;
    result_queue = Spsc.init results;
    worker = waiting;
    main = idle;
    in_flight = 0;
    referenced = false;
    rung = false;
    accepted = [];
    delivered = [];
    freed = [];
  }

  -- `in_flight_++` and `--in_flight_` on the bit pattern of an `int`.
  abbrev pub incremented : ℕ → ℕ
  incremented n = (n + 1) % 2 ^ 32

  abbrev pub decremented : ℕ → ℕ
  decremented n = (n + 2 ^ 32 - 1) % 2 ^ 32

  -- `N` and `M` are the depths of the two queues.
  pub data Step (N M : ℕ) (s : World S) : World S → Type 0 where
    enqueue_ok :
        (item : WorkItem) (q : WorkQueue S WorkItem)
        → (s.main ≡ idle) ⊎ (s.main ≡ calling)
        → enqueue S N item s.sub_queue ≡ (true, q)
        → Step N M s (record s {
          sub_queue = q;
          in_flight = incremented s.in_flight;
          referenced = if s.in_flight == 0 then true else s.referenced;
          accepted = s.accepted ++ item ∷ [];
        })
    enqueue_full :
        (item : WorkItem) (q : WorkQueue S WorkItem)
        → (s.main ≡ idle) ⊎ (s.main ≡ calling)
        → enqueue S N item s.sub_queue ≡ (false, q)
        → Step N M s (record s { sub_queue = q })
    run_take :
        (item : WorkItem) (q : WorkQueue S WorkItem)
        → s.worker ≡ waiting
        → dequeue S N s.sub_queue ≡ (returned (some item), q)
        → Step N M s (record s { sub_queue = q; worker = computing item })
    run_leave :
        (q : WorkQueue S WorkItem)
        → s.worker ≡ waiting
        → dequeue S N s.sub_queue ≡ (returned none, q)
        → Step N M s (record s { sub_queue = q; worker = exited })
    run_compute :
        (item : WorkItem)
        → s.worker ≡ computing item
        → Step N M s (record s { worker = pushing (result_of item) })
    run_push :
        (result : FibResult) (q : Spsc FibResult)
        → s.worker ≡ pushing result
        → Spsc.push M result s.result_queue ≡ (true, q)
        → Step N M s (record s { result_queue = q; worker = ringing })
    run_spin :
        (result : FibResult) (q : Spsc FibResult)
        → s.worker ≡ pushing result
        → Spsc.push M result s.result_queue ≡ (false, q)
        → Step N M s (record s { result_queue = q })
    run_ring : s.worker ≡ ringing → Step N M s (record s { rung = true; worker = waiting })
    ready_start :
        s.main ≡ idle → s.rung ≡ true → Step N M s (record s { rung = false; main = draining })
    ready_pop :
        (r : FibResult) (q : Spsc FibResult)
        → s.main ≡ draining
        → Spsc.pop M s.result_queue ≡ (some r, q)
        → Step N M s
            (record s { result_queue = q; main = calling; delivered = s.delivered ++ r ∷ [] })
    ready_next :
        s.main ≡ calling
        → Step N M s (record s {
          in_flight = decremented s.in_flight;
          referenced = if decremented s.in_flight == 0 then false else s.referenced;
          main = draining;
        })
    ready_end :
        (q : Spsc FibResult)
        → s.main ≡ draining
        → Spsc.pop M s.result_queue ≡ (none, q)
        → Step N M s (record s { result_queue = q; main = idle })
    stop_begin :
        s.main ≡ idle
        → Step N M s (record s { sub_queue = WorkQueue.stop S s.sub_queue; main = joining false })
    stop_within :
        s.main ≡ calling
        → Step N M s (record s { sub_queue = WorkQueue.stop S s.sub_queue; main = joining true })
    stop_end :
        (within : Bool)
        → s.main ≡ joining within
        → s.worker ≡ exited
        → Step N M s (record s {
          sub_queue = (drain S N s.sub_queue).1;
          result_queue = (drain_loop M M s.result_queue).1;
          main = closed;
          freed =
              map (λ i. i.callback) (drain S N s.sub_queue).0
              ++ map (λ r. r.callback) (drain_loop M M s.result_queue).0;
        })

  pub data Steps (N M : ℕ) (s : World S) : World S → Type 0 where
    here : Steps N M s s
    later : {t u : World S} → Steps N M s t → Step N M t u → Steps N M s u
