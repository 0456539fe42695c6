-- ===== src/FibWorker/Tests.antt =====
-- A worker with queues of one item each, over a semaphore that is its number of units.
use capy_js.Prelude.{
  false, ℕ, ◌+◌, ◌%◌, ◌^◌, ◌≡◌, refl, arith, inl, true, not, [], ◌∷◌, ◌++◌, map, ◌==◌,
}
use capy_js.Spsc
use capy_js.Spsc.{Spsc, IsSize}
use capy_js.Spsc.Inv.{init-IsValid, push-IsValid}
use capy_js.Spsc.Refine.{contents}
use capy_js.Semaphore.{counting}
use capy_js.WorkQueue
use capy_js.WorkQueue.{WorkQueue, enqueue, dequeue}
use capy_js.FibWorker.{
  compute_fib, WorkItem, FibResult, result_of, Worker, waiting, pushing, joining, closed, World,
  start, enqueue_ok, run_take, run_compute, run_push, run_ring, stop_begin, Steps, here, later,
}
use capy_js.FibWorker.Inv.{held}
use capy_js.FibWorker.Safety.{
  fib, compute_fib_lem, no_job_lost, loop_alive_while_owed, no_result_forgotten,
}
use capy_js.FibWorker.Stop.{stop_can_hang}

compute_fib_ten : compute_fib 10 ≡ 55
unfolding compute_fib
compute_fib_ten = refl

compute_fib_lem_example : compute_fib 12 ≡ 144
unfolding fib
compute_fib_lem_example = compute_fib_lem 12

IsSize-two : IsSize 2
IsSize-two = record { power = refl; more = omega arith; word = omega arith }

abbrev job : ℕ → WorkItem
job n = record { job = record { job_id = n; value = 6 }; callback = 100 + n }

abbrev items : ℕ → WorkItem
items _ = job 0

abbrev blank : ℕ → FibResult
blank _ = record { job_id = 0; result = 0; error = 0; callback = 0 }

abbrev begin : World counting
begin = start counting items blank

-- One job is accepted, taken, computed, pushed, and the doorbell is rung.
abbrev accept : WorkItem → World counting → World counting
accept item s = record s {
  sub_queue = (enqueue counting 2 item s.sub_queue).1;
  in_flight = (s.in_flight + 1) % 2 ^ 32;
  referenced = true;
  accepted = s.accepted ++ item ∷ [];
}

abbrev take_one : WorkItem → World counting → World counting
take_one item s = record s {
  sub_queue = (dequeue counting 2 s.sub_queue).1;
  worker = pushing (result_of item);
}

abbrev push_one : FibResult → World counting → World counting
push_one r s = record s {
  result_queue = (Spsc.push 2 r s.result_queue).1;
  rung = true;
  worker = waiting;
}

abbrev one_accepted : World counting
one_accepted = accept (job 1) begin

abbrev one_computed : World counting
one_computed = take_one (job 1) one_accepted

abbrev one_ready : World counting
one_ready = push_one (result_of (job 1)) one_computed

one_computed_run : Steps counting 2 2 begin one_computed
unfolding start WorkQueue.init enqueue dequeue Spsc.init Spsc.push Spsc.pop Spsc.next
one_computed_run =
    later (later (later here (enqueue_ok (job 1) _ (inl refl) refl)) (run_take (job 1) _ refl refl))
      (run_compute (job 1) refl)

one_ready_run : Steps counting 2 2 begin one_ready
unfolding start WorkQueue.init enqueue dequeue Spsc.init Spsc.push Spsc.pop Spsc.next
one_ready_run =
    later (later one_computed_run (run_push (result_of (job 1)) _ refl refl)) (run_ring refl)

no_job_lost_example :
    map result_of one_ready.accepted
    ≡ one_ready.delivered
      ++ (contents 2 one_ready.result_queue
          ++ (held one_ready.worker ++ map result_of (contents 2 one_ready.sub_queue.queue)))
unfolding start
no_job_lost_example =
    no_job_lost counting items blank IsSize-two IsSize-two (omega arith) one_ready_run (λ e. cc)

loop_alive_while_owed_example : one_ready.referenced ≡ not (1 == 0)
unfolding start
loop_alive_while_owed_example =
    (loop_alive_while_owed counting items blank IsSize-two IsSize-two (omega arith) one_ready_run
      refl).0

no_result_forgotten_example : contents 2 one_computed.result_queue ≡ []
unfolding start
no_result_forgotten_example =
    no_result_forgotten counting items blank IsSize-two IsSize-two (omega arith) one_computed_run
      refl refl (λ e. cc)

-- `stop` before the job is taken: its callback is freed.
abbrev halting : World counting
halting = record one_accepted {
  sub_queue = WorkQueue.stop counting one_accepted.sub_queue;
  main = joining false;
}

abbrev left : World counting
left = record halting {
  sub_queue = (dequeue counting 2 halting.sub_queue).1;
  worker = Worker.exited;
}

abbrev over : World counting
over = record left {
  sub_queue = (WorkQueue.drain counting 2 left.sub_queue).1;
  result_queue = (WorkQueue.drain_loop 2 2 left.result_queue).1;
  main = closed;
  freed = 101 ∷ [];
}

-- A second job is computed while the first result still fills the queue, and then `stop` is called.
abbrev two_computed : World counting
two_computed = take_one (job 2) (accept (job 2) one_ready)

abbrev hanging : World counting
hanging = record two_computed {
  sub_queue = WorkQueue.stop counting two_computed.sub_queue;
  main = joining false;
}

hanging_run : Steps counting 2 2 begin hanging
unfolding start WorkQueue.init WorkQueue.stop enqueue dequeue Spsc.init Spsc.push Spsc.pop Spsc.next
hanging_run =
    later
      (later
        (later (later one_ready_run (enqueue_ok (job 2) _ (inl refl) refl))
          (run_take (job 2) _ refl refl))
        (run_compute (job 2) refl))
      (stop_begin refl)

stop_can_hang_example :
    (hanging.main ≡ joining false) × (hanging.worker ≡ pushing (result_of (job 2)))
unfolding start WorkQueue.stop Spsc.init Spsc.push Spsc.next contents
stop_can_hang_example =
    stop_can_hang counting 2 2 {r = result_of (job 2)} {s = hanging}
      (push-IsValid (result_of (job 1)) (init-IsValid blank IsSize-two)) refl refl refl here
