-- ===== src/JsWorker/Tests.antt =====
-- A script worker with queues of one item each, over a semaphore that is its number of units.
use capy_js.Prelude.{ℕ, ◌≡◌, refl, arith, inl, true, not, [], ◌∷◌, ◌++◌, map, length, ◌==◌}
use capy_js.Prelude.Text.{codes}
use capy_js.Spsc
use capy_js.Spsc.{Spsc, IsSize}
use capy_js.Spsc.Refine.{contents}
use capy_js.Semaphore.{counting}
use capy_js.WorkQueue
use capy_js.WorkQueue.{WorkQueue, enqueue, dequeue}
use capy_js.JsWorker.{
  JsWorkItem, JsResult, threw, result_of, failed, waiting, World, start, enqueue_ok, run_fails,
  run_loads, run_take, run_process, run_push, run_ring, Steps, here, later,
}
use capy_js.JsWorker.Inv.{owner, sender, in_hand}
use capy_js.JsWorker.Safety.{each_job_in_one_place, failed_script_never_answers}

IsSize-two : IsSize 2
IsSize-two = record { power = refl; more = omega arith; word = omega arith }

abbrev job : JsWorkItem
job = record { job = record { job_id = 1; input_json = codes "[]" }; callback = 101 }

abbrev items : ℕ → JsWorkItem
items _ = job

abbrev blank : ℕ → JsResult
blank _ = record { job_id = 0; output_json = []; error = 0; error_msg = []; callback = 0 }

abbrev begin : World counting
begin = start counting items blank

abbrev accepted : World counting
accepted = record begin {
  sub_queue = (enqueue counting 2 job begin.sub_queue).1;
  in_flight = 1;
  referenced = true;
  accepted = job ∷ [];
}

abbrev answered : World counting
answered = record accepted {
  sub_queue = (dequeue counting 2 accepted.sub_queue).1;
  result_queue = (Spsc.push 2 (result_of (threw (codes "bad")) job) accepted.result_queue).1;
  rung = true;
  worker = waiting;
}

answered_run : Steps counting 2 2 begin answered
unfolding start WorkQueue.init enqueue dequeue Spsc.init Spsc.push Spsc.pop Spsc.next result_of
answered_run =
    later
      (later
        (later
          (later (later (later here (enqueue_ok job _ (inl refl) refl)) (run_loads refl))
            (run_take job _ refl refl))
          (run_process job (threw (codes "bad")) refl))
        (run_push (result_of (threw (codes "bad")) job) _ refl refl))
      (run_ring refl)

each_job_in_one_place_example :
    map owner answered.accepted
    ≡ map sender answered.delivered
      ++ (map sender (contents 2 answered.result_queue)
          ++ (in_hand answered.worker ++ map owner (contents 2 answered.sub_queue.queue)))
unfolding start
each_job_in_one_place_example =
    each_job_in_one_place counting items blank IsSize-two IsSize-two (omega arith) answered_run
      (λ e. cc e)

abbrev stuck : World counting
stuck = record accepted { worker = failed }

stuck_run : Steps counting 2 2 begin stuck
unfolding start WorkQueue.init enqueue Spsc.init Spsc.push Spsc.next
stuck_run = later (later here (run_fails refl)) (enqueue_ok job _ (inl refl) refl)

failed_script_never_answers_example :
    (stuck.delivered ≡ [])
    × (contents 2 stuck.result_queue ≡ [])
    × (map owner stuck.accepted ≡ map owner (contents 2 stuck.sub_queue.queue))
    × (stuck.referenced ≡ not (length stuck.accepted == 0))
unfolding start
failed_script_never_answers_example =
    failed_script_never_answers counting items blank IsSize-two IsSize-two (omega arith) stuck_run
      (λ e. cc e) refl
