-- ===== src/JsWorker.antt =====
-- The script worker of src/workers/js_worker.cc: a thread with a script engine of its own, which calls
-- the function `process` of the worker's script for each job. What the script does is the choice of a
-- step.
use capy_js.Prelude.{
  ℕ, ◌+◌, ◌-◌, ◌%◌, ◌^◌, ◌≡◌, ◌⊎◌, Bool, true, false, none, some, List, [], ◌∷◌, ◌++◌, map, ◌==◌,
  if◌then◌else◌,
}
use capy_js.Semaphore.{Semaphore}
use capy_js.Spsc
use capy_js.Spsc.{Spsc}
use capy_js.WorkQueue
use capy_js.WorkQueue.{WorkQueue, returned, enqueue, dequeue, drain, drain_loop}
pub mod Inv
pub mod Safety
mod Tests

pub record JsJob : Type 0 where
  pub job_id : ℕ
  pub input_json : List ℕ

-- A callback is the name of the script's function.
pub record JsWorkItem : Type 0 where
  pub job : JsJob
  pub callback : ℕ

pub record JsResult : Type 0 where
  pub job_id : ℕ
  pub output_json : List ℕ
  pub error : ℕ
  pub error_msg : List ℕ
  pub callback : ℕ

-- What the call of `process` comes to, with the text of its value or its exception.
pub data Called : Type 0 where
  threw : List ℕ → Called
  gave : List ℕ → Called

unfoldable pub result_of : Called → JsWorkItem → JsResult
result_of (threw msg) item = record {
  job_id = item.job.job_id;
  output_json = [];
  error = 1;
  error_msg = msg;
  callback = item.callback;
}
result_of (gave out) item = record {
  job_id = item.job.job_id;
  output_json = out;
  error = 0;
  error_msg = [];
  callback = item.callback;
}

-- Where the thread is: `loading` is `run` before its loop; `failed` is its early return, when the file
-- is missing or empty, its code throws, or `process` is no function.
pub data Worker : Type 0 where
  loading : Worker
  failed : Worker
  waiting : Worker
  processing : JsWorkItem → Worker
  pushing : JsResult → Worker
  ringing : Worker
  exited : Worker

-- `joining true` is a `stop` that the script has called from inside `on_result`; what is left of
-- `on_result_ready` after it finds the ring empty, and counts down on a worker that is about to go.
pub data Main : Type 0 where
  idle : Main
  draining : Main
  calling : Main
  joining : Bool → Main
  closed : Main

pub record World (S : Semaphore) : Type 0 where
  pub sub_queue : WorkQueue S JsWorkItem
  pub result_queue : Spsc JsResult
  pub worker : Worker
  pub main : Main
  pub in_flight : ℕ
  pub referenced : Bool
  pub rung : Bool
  pub accepted : List JsWorkItem
  pub delivered : List JsResult
  pub freed : List ℕ

-- The thread has left `run`.
abbrev pub has_left : Worker → Bool
has_left failed = true
has_left exited = true
has_left _ = false

module _ (S : Semaphore) where
  unfoldable pub start : (ℕ → JsWorkItem) → (ℕ → JsResult) → World S
  start items results = record {
    sub_queue = WorkQueue.init S items;
    result_queue = Spsc.init results;
    worker = loading;
    main = idle;
    in_flight = 0;
    referenced = false;
    rung = false;
    accepted = [];
    delivered = [];
    freed = [];
  }

  -- `N` and `M` are the depths of the two queues.
  pub data Step (N M : ℕ) (s : World S) : World S → Type 0 where
    enqueue_ok :
        (item : JsWorkItem) (q : WorkQueue S JsWorkItem)
        → (s.main ≡ idle) ⊎ (s.main ≡ calling)
        → enqueue S N item s.sub_queue ≡ (true, q)
        → Step N M s (record s {
          sub_queue = q;
          in_flight = (s.in_flight + 1) % 2 ^ 32;
          referenced = if s.in_flight == 0 then true else s.referenced;
          accepted = s.accepted ++ item ∷ [];
        })
    enqueue_full :
        (item : JsWorkItem) (q : WorkQueue S JsWorkItem)
        → (s.main ≡ idle) ⊎ (s.main ≡ calling)
        → enqueue S N item s.sub_queue ≡ (false, q)
        → Step N M s (record s { sub_queue = q })
    run_fails : s.worker ≡ loading → Step N M s (record s { worker = failed })
    run_loads : s.worker ≡ loading → Step N M s (record s { worker = waiting })
    run_take :
        (item : JsWorkItem) (q : WorkQueue S JsWorkItem)
        → s.worker ≡ waiting
        → dequeue S N s.sub_queue ≡ (returned (some item), q)
        → Step N M s (record s { sub_queue = q; worker = processing item })
    run_leave :
        (q : WorkQueue S JsWorkItem)
        → s.worker ≡ waiting
        → dequeue S N s.sub_queue ≡ (returned none, q)
        → Step N M s (record s { sub_queue = q; worker = exited })
    run_process :
        (item : JsWorkItem) (out : Called)
        → s.worker ≡ processing item
        → Step N M s (record s { worker = pushing (result_of out item) })
    run_push :
        (r : JsResult) (q : Spsc JsResult)
        → s.worker ≡ pushing r
        → Spsc.push M r s.result_queue ≡ (true, q)
        → Step N M s (record s { result_queue = q; worker = ringing })
    run_spin :
        (r : JsResult) (q : Spsc JsResult)
        → s.worker ≡ pushing r
        → Spsc.push M r s.result_queue ≡ (false, q)
        → Step N M s (record s { result_queue = q })
    run_ring : s.worker ≡ ringing → Step N M s (record s { rung = true; worker = waiting })
    ready_start :
        s.main ≡ idle → s.rung ≡ true → Step N M s (record s { rung = false; main = draining })
    ready_pop :
        (r : JsResult) (q : Spsc JsResult)
        → s.main ≡ draining
        → Spsc.pop M s.result_queue ≡ (some r, q)
        → Step N M s
            (record s { result_queue = q; main = calling; delivered = s.delivered ++ r ∷ [] })
    ready_next :
        s.main ≡ calling
        → Step N M s (record s {
          in_flight = (s.in_flight + 2 ^ 32 - 1) % 2 ^ 32;
          referenced = if (s.in_flight + 2 ^ 32 - 1) % 2 ^ 32 == 0 then false else s.referenced;
          main = draining;
        })
    ready_end :
        (q : Spsc JsResult)
        → s.main ≡ draining
        → Spsc.pop M s.result_queue ≡ (none, q)
        → Step N M s (record s { result_queue = q; main = idle })
    stop_begin :
        s.main ≡ idle
        → Step N M s (record s { sub_queue = WorkQueue.stop S s.sub_queue; main = joining false })
    stop_within :
        s.main ≡ calling
        → Step N M s (record s { sub_queue = WorkQueue.stop S s.sub_queue; main = joining true })
    stop_end :
        (within : Bool)
        → s.main ≡ joining within
        → has_left s.worker ≡ true
        → Step N M s (record s {
          sub_queue = (drain S N s.sub_queue).1;
          result_queue = (drain_loop M M s.result_queue).1;
          main = closed;
          freed =
              map (λ i. i.callback) (drain S N s.sub_queue).0
              ++ map (λ r. r.callback) (drain_loop M M s.result_queue).0;
        })

  pub data Steps (N M : ℕ) (s : World S) : World S → Type 0 where
    here : Steps N M s s
    later : {t u : World S} → Steps N M s t → Step N M t u → Steps N M s u
