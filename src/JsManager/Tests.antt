-- ===== src/JsManager/Tests.antt =====
-- Two script workers, each with a queue of two cells, which holds one job.
use capy_js.Prelude.{
  ℕ, ◌+◌, ◌-◌, ◌≡◌, refl, arith, true, false, Option, none, some, List, [], ◌∷◌, ◌==◌, ltb,
  if◌then◌else◌,
}
use capy_js.Prelude.Text.{codes}
use capy_js.Spsc.{IsSize}
use capy_js.Semaphore.{counting}
use capy_js.WorkQueue
use capy_js.JsWorker.{JsWorkItem, JsResult}
use capy_js.JsManager.{
  IWorker, Manager, init, pick_worker, hand_over, js_dispatch, on_result, js_close, js_get_progress,
  no_workers, not_a_string, queue_full, failed,
}
use capy_js.JsManager.Share.{share}
use capy_js.JsManager.Turns.{item, logged, dispatch_all, jobs_take_turns}
use capy_js.JsManager.Burst.{queued, burst_is_taken_to_capacity}
use capy_js.JsManager.Close.{close_stops_each_once}

IsSize-two : IsSize 2
IsSize-two = record { power = refl; more = omega arith; word = omega arith }

-- A worker by the number of jobs that it still takes, which is large once it is stopped.
abbrev room : IWorker
room = record {
  Worker = ℕ;
  enqueue = λ job callback n. if n == 0 then (false, n) else (true, n - 1);
  stop = λ n. n + 100;
}

abbrev calls : List (List ℕ × ℕ)
calls = (codes "1", 11) ∷ (codes "2", 12) ∷ (codes "3", 13) ∷ []

abbrev three : Manager room
three = dispatch_all room calls (init room (λ i. 1) 2)

-- The third job found the first worker full; its number is used and unknown.
unknown_when_refused : js_get_progress room 2 three ≡ none
unfolding init js_dispatch hand_over pick_worker js_get_progress
unknown_when_refused = refl

abbrev broken : JsResult
broken = record { job_id = 1; output_json = []; error = 1; error_msg = codes "no"; callback = 12 }

progress_of_failed : js_get_progress room 1 (on_result room broken three) ≡ some failed
unfolding init js_dispatch hand_over pick_worker js_get_progress on_result
progress_of_failed = refl

bad_input : (js_dispatch room true none 14 three).0 ≡ not_a_string
unfolding init js_dispatch hand_over pick_worker
bad_input = refl

jobs_take_turns_example :
    ((dispatch_all (logged room) calls (init (logged room) (λ j. (1, [])) 2)).workers 0).1
      ≡ item 0 (codes "1") 11 ∷ item 2 (codes "3") 13 ∷ []
    × 2 ≡ share 2 0 3
jobs_take_turns_example = jobs_take_turns room (λ j. 1) 2 0 calls (omega arith) (omega arith)

close_stops_each_once_example :
    ((i : ℕ)
      → (js_close room three).workers i
        ≡ (if ltb i three.worker_size then three.workers i + 100 else three.workers i))
    × (js_close room (js_close room three) ≡ js_close room three)
    × ((input : Option (List ℕ)) (callback : ℕ)
        → js_dispatch room true input callback (js_close room three)
          ≡ (no_workers, js_close room three))
    × ((id : ℕ) → js_get_progress room id (js_close room three) ≡ js_get_progress room id three)
close_stops_each_once_example = close_stops_each_once room three

abbrev cells : ℕ → ℕ → JsWorkItem
cells i j = item 0 [] 0

burst_is_taken_to_capacity_example :
    (js_dispatch (queued counting 2) true (some (codes "4")) 14 (
      dispatch_all
        (queued counting 2)
        calls
        (init (queued counting 2) (λ i. WorkQueue.init counting (cells i)) 2))).0
    ≡ queue_full 1
burst_is_taken_to_capacity_example =
    burst_is_taken_to_capacity counting 2 cells 2 calls (codes "4") 14 IsSize-two (omega arith)
      (omega arith)
