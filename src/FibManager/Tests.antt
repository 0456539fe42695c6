-- ===== src/FibManager/Tests.antt =====
-- Two workers, each by the number of jobs that it still takes.
use capy_js.Prelude.{
  ℕ, ◌+◌, ◌-◌, ◌≡◌, refl, arith, true, false, some, [], ◌∷◌, ◌==◌, if◌then◌else◌, elem,
}
use capy_js.Workers.{stop_all}
use capy_js.FibWorker.{FibResult}
use capy_js.FibManager.{
  done, pending, no_workers, queue_full, IWorker, Manager, init, pick_worker, js_dispatch,
  on_result, js_get_progress, js_close,
}
use capy_js.FibManager.Progress.{
  Reach, begin, dispatched, answered, progress_is_exact, job_ids_are_fresh,
}

abbrev room : IWorker
room = record {
  Worker = ℕ;
  enqueue = λ job callback n. if n == 0 then (false, n) else (true, n - 1);
  stop = λ n. n + 100;
}

abbrev empty : Manager room
empty = init room (λ _. 1) 2

abbrev one : Manager room
one = (js_dispatch room true 30 100 empty).1

abbrev two : Manager room
two = (js_dispatch room true 31 101 one).1

-- The third job finds the first worker full, and its number is never told.
third_refused : (js_dispatch room true 32 102 two).0 ≡ queue_full 0
unfolding init js_dispatch pick_worker
third_refused = refl

two_Reach : Reach room (λ _. 1) 2 two (1 ∷ 0 ∷ []) [] []
unfolding init js_dispatch pick_worker
two_Reach = dispatched 1 31 101 (dispatched 0 30 100 begin (omega arith) refl) (omega arith) refl

abbrev answer : FibResult
answer = record { job_id = 0; result = 832040; error = 0; callback = 100 }

answered_Reach : Reach room (λ _. 1) 2 (on_result room answer two) (1 ∷ 0 ∷ []) (0 ∷ []) []
unfolding elem
answered_Reach = answered answer two_Reach refl refl refl refl

progress_is_exact_example : js_get_progress room 0 (on_result room answer two) ≡ some done
unfolding elem
progress_is_exact_example = progress_is_exact room (λ _. 1) 2 0 answered_Reach

job_ids_are_fresh_example : elem 1 (0 ∷ []) ≡ false
unfolding init js_dispatch pick_worker
job_ids_are_fresh_example =
    job_ids_are_fresh room (λ _. 1) 2 1 31 101 two (dispatched 0 30 100 begin (omega arith) refl)
      refl

-- After `js_close` both workers are stopped, and the job that was pending stays so.
pending_after_close :
    (js_get_progress room 1 (js_close room two) ≡ some pending)
    × ((js_close room two).workers 0 ≡ 100)
    × ((js_close room two).workers 1 ≡ 100)
    × ((js_dispatch room true 33 103 (js_close room two)).0 ≡ no_workers)
unfolding init js_dispatch pick_worker js_get_progress js_close stop_all
pending_after_close = (refl, refl, refl, refl)
