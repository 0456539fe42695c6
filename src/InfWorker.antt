-- ===== src/InfWorker.antt =====
-- The inference worker of src/workers/inference_worker.cc: a thread that answers each job with a stream
-- of tokens, the last of which ends the job. What llama makes of a model, a prompt or a token is the
-- choice of a step.
use capy_js.Prelude.{
  ℕ, zero, suc, ◌+◌, ◌-◌, ◌%◌, ◌^◌, ◌<◌, ◌≡◌, ◌⊎◌, Bool, true, false, ◌||◌, none, some, List, [],
  ◌∷◌, ◌++◌, map, take, ◌==◌, if◌then◌else◌,
}
use capy_js.Prelude.Text.{codes}
use capy_js.Semaphore.{Semaphore}
use capy_js.Spsc
use capy_js.Spsc.{Spsc}
use capy_js.WorkQueue
use capy_js.WorkQueue.{WorkQueue, returned, enqueue, dequeue, drain, drain_loop}
pub mod Ends
pub mod Inv
pub mod Streams
pub mod Safety
mod Tests

pub record InfJob : Type 0 where
  pub job_id : ℕ
  pub model_class : List ℕ
  pub session_id : List ℕ
  pub client_id : List ℕ
  pub prompt : List ℕ

-- A callback is the name of the script's function.
pub record InfWorkItem : Type 0 where
  pub job : InfJob
  pub callback : ℕ

pub record InfResult : Type 0 where
  pub job_id : ℕ
  pub token : List ℕ
  pub is_done : Bool
  pub error : ℕ
  pub callback : ℕ

abbrev pub token_gen_max : ℕ
token_gen_max = 512

-- What the thread does after a result is out: it leaves `run_inference`, or decodes the token and goes
-- on with round `i`.
pub data Next : Type 0 where
  finished : Next
  go_on : InfWorkItem → ℕ → Next

-- Where the thread is: `starting` is `run_inference` before its loop.
pub data Worker : Type 0 where
  waiting : Worker
  starting : InfWorkItem → Worker
  generating : InfWorkItem → ℕ → Worker
  pushing : InfResult → Next → Worker
  ringing : Next → Worker
  decoding : InfWorkItem → ℕ → Worker
  exited : Worker

unfoldable pub after : Next → Worker
after finished = waiting
after (go_on item i) = decoding item i

-- The result that `send_error` pushes, with the messages of `run_inference`.
unfoldable pub error_result : List ℕ → InfWorkItem → InfResult
error_result msg item = record {
  job_id = item.job.job_id;
  token = take 63 msg;
  is_done = true;
  error = 1;
  callback = item.callback;
}

pub data Failure : Type 0 where
  no_model : Failure
  tokenize_failed : Failure
  prompt_failed : Failure

abbrev pub message : Failure → List ℕ
message no_model = codes "model not available"
message tokenize_failed = codes "tokenize failed"
message prompt_failed = codes "prompt eval failed"

-- Round `i` of the loop, for a token that ends the generation or has these bytes.
unfoldable pub is_last : Bool → ℕ → Bool
is_last is_eog i = is_eog || (i == token_gen_max - 1)

unfoldable pub token_result : Bool → List ℕ → ℕ → InfWorkItem → InfResult
token_result is_eog piece i item = record {
  job_id = item.job.job_id;
  token = if is_eog then [] else take 63 piece;
  is_done = is_last is_eog i;
  error = 0;
  callback = item.callback;
}

unfoldable pub after_token : Bool → ℕ → InfWorkItem → Next
after_token is_eog i item = if is_last is_eog i then finished else go_on item (i + 1)

-- The result behind the loop, where no round has sent the last one.
unfoldable pub done_result : InfWorkItem → InfResult
done_result item = record {
  job_id = item.job.job_id;
  token = [];
  is_done = true;
  error = 0;
  callback = item.callback;
}

-- Where the main thread is: in `calling done` it is in the call of `on_result`, and `done` says whether
-- the result ends its job. A `stop` from inside that call is `joining done`, with what is left of
-- `on_result_ready` after it, which finds the ring empty; one from outside is `joining false`.
pub data Main : Type 0 where
  idle : Main
  draining : Main
  calling : Bool → Main
  joining : Bool → Main
  closed : Main

-- `mid_stream` of `stop`.
unfoldable pub erase : ℕ → List (ℕ × ℕ) → List (ℕ × ℕ)
erase id [] = []
erase id ((j, cb) ∷ m) = let rest = erase id m in if j == id then rest else (j, cb) ∷ rest

-- The callbacks that the loop over the result queue frees, and then those left in `mid_stream`.
unfoldable pub free_results : List InfResult → List (ℕ × ℕ) → List ℕ
free_results [] mid_stream = map (λ e. e.1) mid_stream
free_results (r ∷ rs) mid_stream =
    let ended = free_results rs (erase r.job_id mid_stream) in
    let kept = free_results rs ((r.job_id, r.callback) ∷ erase r.job_id mid_stream) in
    if r.is_done then r.callback ∷ ended else kept

pub record World (S : Semaphore) : Type 0 where
  pub sub_queue : WorkQueue S InfWorkItem
  pub result_queue : Spsc InfResult
  pub worker : Worker
  pub main : Main
  pub in_flight : ℕ
  pub referenced : Bool
  pub rung : Bool
  pub accepted : List InfWorkItem
  pub delivered : List InfResult
  pub freed : List ℕ

module _ (S : Semaphore) where
  unfoldable pub start : (ℕ → InfWorkItem) → (ℕ → InfResult) → World S
  start items results = record {
    sub_queue = WorkQueue.init S items;
    result_queue = Spsc.init results;
    worker = waiting;
    main = idle;
    in_flight = 0;
    referenced = false;
    rung = false;
    accepted = [];
    delivered = [];
    freed = [];
  }

  -- `--in_flight_` and the reference to the doorbell, after a result that ends its job.
  unfoldable pub counted_down : Bool → World S → World S
  counted_down false s = s
  counted_down true s =
      let left = (s.in_flight + 2 ^ 32 - 1) % 2 ^ 32 in
      record s { in_flight = left; referenced = if left == 0 then false else s.referenced }

  -- `N` and `M` are the depths of the two queues.
  pub data Step (N M : ℕ) (s : World S) : World S → Type 0 where
    enqueue_ok :
        (item : InfWorkItem) (q : WorkQueue S InfWorkItem)
        → (s.main ≡ idle) ⊎ ((d : Bool) × (s.main ≡ calling d))
        → enqueue S N item s.sub_queue ≡ (true, q)
        → Step N M s (record s {
          sub_queue = q;
          in_flight = (s.in_flight + 1) % 2 ^ 32;
          referenced = if s.in_flight == 0 then true else s.referenced;
          accepted = s.accepted ++ item ∷ [];
        })
    enqueue_full :
        (item : InfWorkItem) (q : WorkQueue S InfWorkItem)
        → (s.main ≡ idle) ⊎ ((d : Bool) × (s.main ≡ calling d))
        → enqueue S N item s.sub_queue ≡ (false, q)
        → Step N M s (record s { sub_queue = q })
    run_take :
        (item : InfWorkItem) (q : WorkQueue S InfWorkItem)
        → s.worker ≡ waiting
        → dequeue S N s.sub_queue ≡ (returned (some item), q)
        → Step N M s (record s { sub_queue = q; worker = starting item })
    run_leave :
        (q : WorkQueue S InfWorkItem)
        → s.worker ≡ waiting
        → dequeue S N s.sub_queue ≡ (returned none, q)
        → Step N M s (record s { sub_queue = q; worker = exited })
    run_fails :
        (item : InfWorkItem) (why : Failure)
        → s.worker ≡ starting item
        → Step N M s (record s { worker = pushing (error_result (message why) item) finished })
    run_starts :
        (item : InfWorkItem)
        → s.worker ≡ starting item
        → Step N M s (record s { worker = generating item 0 })
    run_sample :
        (item : InfWorkItem) (i : ℕ) (is_eog : Bool) (piece : List ℕ)
        → s.worker ≡ generating item i
        → Step N M s (record s {
          worker = pushing (token_result is_eog piece i item) (after_token is_eog i item);
        })
    run_push :
        (r : InfResult) (next : Next) (q : Spsc InfResult)
        → s.worker ≡ pushing r next
        → Spsc.push M r s.result_queue ≡ (true, q)
        → Step N M s (record s { result_queue = q; worker = ringing next })
    run_spin :
        (r : InfResult) (next : Next) (q : Spsc InfResult)
        → s.worker ≡ pushing r next
        → Spsc.push M r s.result_queue ≡ (false, q)
        → Step N M s (record s { result_queue = q })
    run_ring :
        (next : Next)
        → s.worker ≡ ringing next
        → Step N M s (record s { rung = true; worker = after next })
    run_decoded :
        (item : InfWorkItem) (i : ℕ)
        → s.worker ≡ decoding item i
        → Step N M s (record s { worker = generating item i })
    run_undecoded :
        (item : InfWorkItem) (i : ℕ)
        → s.worker ≡ decoding item i
        → Step N M s (record s { worker = pushing (done_result item) finished })
    ready_start :
        s.main ≡ idle → s.rung ≡ true → Step N M s (record s { rung = false; main = draining })
    ready_pop :
        (r : InfResult) (q : Spsc InfResult)
        → s.main ≡ draining
        → Spsc.pop M s.result_queue ≡ (some r, q)
        → Step N M s (record s {
          result_queue = q;
          main = calling r.is_done;
          delivered = s.delivered ++ r ∷ [];
        })
    ready_next :
        (done : Bool)
        → s.main ≡ calling done
        → Step N M s (record (counted_down done s) { main = draining })
    ready_end :
        (q : Spsc InfResult)
        → s.main ≡ draining
        → Spsc.pop M s.result_queue ≡ (none, q)
        → Step N M s (record s { result_queue = q; main = idle })
    stop_begin :
        s.main ≡ idle
        → Step N M s (record s { sub_queue = WorkQueue.stop S s.sub_queue; main = joining false })
    stop_within :
        (last : Bool)
        → s.main ≡ calling last
        → Step N M s (record s { sub_queue = WorkQueue.stop S s.sub_queue; main = joining last })
    stop_end :
        (within : Bool)
        → s.main ≡ joining within
        → s.worker ≡ exited
        → Step N M s (record s {
          sub_queue = (drain S N s.sub_queue).1;
          result_queue = (drain_loop M M s.result_queue).1;
          main = closed;
          freed =
              map (λ i. i.callback) (drain S N s.sub_queue).0
              ++ free_results (drain_loop M M s.result_queue).0 [];
        })

  pub data Steps (N M : ℕ) (s : World S) : World S → Type 0 where
    here : Steps N M s s
    later : {t u : World S} → Steps N M s t → Step N M t u → Steps N M s u
