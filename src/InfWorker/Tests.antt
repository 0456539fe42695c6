-- ===== src/InfWorker/Tests.antt =====
-- An inference worker with queues of one item each, over a semaphore that is its number of units.
use capy_js.Prelude.{
  ℕ, ◌+◌, ◌%◌, ◌^◌, ◌≡◌, refl, arith, inl, true, false, not, [], ◌∷◌, ◌++◌, map, length, ◌==◌,
}
use capy_js.Prelude.Text.{codes}
use capy_js.Spsc
use capy_js.Spsc.{Spsc, IsSize}
use capy_js.Spsc.Refine.{contents}
use capy_js.Semaphore.{counting}
use capy_js.WorkQueue
use capy_js.WorkQueue.{WorkQueue, enqueue, dequeue}
use capy_js.InfWorker.{
  InfWorkItem, InfResult, go_on, decoding, exited, joining, World, start, token_result, after_token,
  after, is_last, enqueue_ok, run_take, run_starts, run_sample, run_push, run_ring, Steps, here,
  later,
}
use capy_js.InfWorker.Ends.{owner, ends, in_hand}
use capy_js.InfWorker.Safety.{one_end_per_job, loop_alive_while_streaming}

IsSize-two : IsSize 2
IsSize-two = record { power = refl; more = omega arith; word = omega arith }

abbrev job : InfWorkItem
job = record {
  job = record {
    job_id = 1;
    model_class = codes "small";
    session_id = [];
    client_id = [];
    prompt = codes "hi";
  };
  callback = 101;
}

abbrev items : ℕ → InfWorkItem
items _ = job

abbrev blank : ℕ → InfResult
blank _ = record { job_id = 0; token = []; is_done = false; error = 0; callback = 0 }

abbrev begin : World counting
begin = start counting items blank

abbrev accept : World counting → World counting
accept s = record s {
  sub_queue = (enqueue counting 2 job s.sub_queue).1;
  in_flight = (s.in_flight + 1) % 2 ^ 32;
  referenced = true;
  accepted = s.accepted ++ job ∷ [];
}

-- The job is taken, and its first token pushed.
abbrev stream_one : World counting → World counting
stream_one s = record s {
  sub_queue = (dequeue counting 2 s.sub_queue).1;
  result_queue = (Spsc.push 2 (token_result false (codes "he") 0 job) s.result_queue).1;
  rung = true;
  worker = decoding job 1;
}

abbrev streaming : World counting
streaming = stream_one (accept begin)

streaming_run : Steps counting 2 2 begin streaming
unfolding start WorkQueue.init enqueue dequeue Spsc.init Spsc.push Spsc.pop Spsc.next token_result
    after_token after is_last
streaming_run =
    later
      (later
        (later
          (later (later (later here (enqueue_ok job _ (inl refl) refl)) (run_take job _ refl refl))
            (run_starts job refl))
          (run_sample job 0 false (codes "he") refl))
        (run_push (token_result false (codes "he") 0 job) (go_on job 1) _ refl refl))
      (run_ring (go_on job 1) refl)

one_end_per_job_example :
    map owner streaming.accepted
    ≡ ends streaming.delivered
      ++ (ends (contents 2 streaming.result_queue)
          ++ (in_hand streaming.worker ++ map owner (contents 2 streaming.sub_queue.queue)))
unfolding start
one_end_per_job_example =
    one_end_per_job counting items blank IsSize-two IsSize-two (omega arith) streaming_run
      (λ e. cc e)

loop_alive_while_streaming_example :
    (streaming.referenced ≡ not (length streaming.accepted == length (ends streaming.delivered)))
    × (length streaming.accepted ≡ length (ends streaming.delivered) + streaming.in_flight)
unfolding start
loop_alive_while_streaming_example =
    loop_alive_while_streaming counting items blank IsSize-two IsSize-two (omega arith)
      streaming_run refl

-- A worker that is stopped before it takes its job.
abbrev stopping : World counting
stopping =
    let s = accept begin in
    record s {
      sub_queue = (dequeue counting 2 (WorkQueue.stop counting s.sub_queue)).1;
      worker = exited;
      main = joining false;
    }
