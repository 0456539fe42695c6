-- ===== src/InfWorker/Inv.antt =====
-- The invariant of an inference worker: where the end of each accepted job is, and what the counter
-- and the doorbell have to do with it.
use capy_js.Prelude.{ℕ, ◌+◌, ◌^◌, ◌<◌, ◌≤◌, ◌≡◌, ◌≢◌, refl, arith}
use capy_js.Prelude.{
  true, false, not, [], ◌∷◌, ◌++◌, map, length, append_assoc, append-nil, map-append, length-append,
  ◌==◌,
}
use capy_js.Semaphore.{Semaphore}
use capy_js.Spsc
use capy_js.Spsc.{Spsc, IsSize}
use capy_js.Spsc.Inv.{IsValid, init-IsValid, count-lt}
use capy_js.Spsc.Refine.{contents, length-contents}
use capy_js.Spsc.Cases.{push_accepted, push_refused, pop_given, pop-none}
use capy_js.WorkQueue
use capy_js.WorkQueue.{WorkQueue}
use capy_js.WorkQueue.Cases.{enqueue_accepted, enqueue_refused, dequeue_given, dequeue-none}
use capy_js.InfWorker.{
  InfWorkItem, InfResult, finished, go_on, after, error_result, done_result, Worker, waiting,
  starting, generating, pushing, ringing, decoding, exited, closed, World, start, counted_down,
  Step, enqueue_ok, enqueue_full, run_take, run_leave, run_fails, run_starts, run_sample, run_push,
  run_spin, run_ring, run_decoded, run_undecoded, ready_start, ready_pop, ready_next, ready_end,
  stop_begin, stop_within, stop_end,
}
use capy_js.InfWorker.Ends.{
  owner, sender, ends, ends-append, length-ends, sampled, in_hand, Sound, in_call,
}

length-in_hand : (w : Worker) → length (in_hand w) ≤ 1
length-in_hand waiting = omega arith
length-in_hand (starting item) = omega arith
length-in_hand (generating item i) = omega arith
length-in_hand (pushing r finished) = omega arith
length-in_hand (pushing r (go_on item i)) = omega arith
length-in_hand (ringing finished) = omega arith
length-in_hand (ringing (go_on item i)) = omega arith
length-in_hand (decoding item i) = omega arith
length-in_hand exited = omega arith

module _ (S : Semaphore) (N M : ℕ) where
  pub record Live (s : World S) : Type 0 where
    pub items_valid : IsValid N s.sub_queue.queue
    pub results_valid : IsValid M s.result_queue
    pub sound : Sound s.worker
    pub kept :
        map owner s.accepted
        ≡ ends s.delivered
          ++ (ends (contents M s.result_queue)
              ++ (in_hand s.worker ++ map owner (contents N s.sub_queue.queue)))
    pub counted :
        s.in_flight
        ≡ length (ends (contents M s.result_queue))
          + length (in_hand s.worker)
          + length (contents N s.sub_queue.queue)
          + in_call s.main
    pub keeps : s.referenced ≡ not (s.in_flight == 0)

  pub start-Live :
      (items : ℕ → InfWorkItem) (results : ℕ → InfResult)
      → IsSize N
      → IsSize M
      → Live (start S items results)
  unfolding start contents WorkQueue.init Spsc.init
  start-Live items results n m = record {
    items_valid = init-IsValid items n;
    results_valid = init-IsValid results m;
    sound = tt;
    kept = refl;
    counted = refl;
    keeps = refl;
  }

  Live-small : {s : World S} → N + M < 2 ^ 31 → Live s → s.in_flight < 2 ^ 31
  Live-small {s} small v = ground (
    arith,
    count-lt v.items_valid,
    count-lt v.results_valid,
    length-contents N s.sub_queue.queue,
    length-contents M s.result_queue,
    length-ends (contents M s.result_queue),
    length-in_hand s.worker,
  )

  pub Step-Live :
      {s t : World S} → N + M < 2 ^ 31 → Step S N M s t → Live s → t.main ≢ closed → Live t
  unfolding WorkQueue.stop counted_down error_result done_result after
  Step-Live {s} small (enqueue_ok item q e p) v o = ground (
    arith,
    Live-small small v,
    enqueue_accepted S N s.sub_queue item q v.items_valid p,
    map-append owner s.accepted (item ∷ []),
    map-append owner (contents N s.sub_queue.queue) (item ∷ []),
    append_assoc (ends s.delivered)
        (ends (contents M s.result_queue)
          ++ (in_hand s.worker ++ map owner (contents N s.sub_queue.queue)))
        (owner item ∷ []),
    append_assoc (ends (contents M s.result_queue))
        (in_hand s.worker ++ map owner (contents N s.sub_queue.queue)) (owner item ∷ []),
    append_assoc (in_hand s.worker) (map owner (contents N s.sub_queue.queue)) (owner item ∷ []),
    length-append (contents N s.sub_queue.queue) (item ∷ []),
  )
  Step-Live {s} small (enqueue_full item q e p) v o =
      rw (enqueue_refused S N s.sub_queue item q v.items_valid p) v
  Step-Live {s} small (run_take item q e p) v o =
      ground (arith, dequeue_given S N s.sub_queue item q v.items_valid p)
  Step-Live {s} small (run_leave q e p) v o =
      ground (arith, dequeue-none S N s.sub_queue q v.items_valid p)
  Step-Live {s} small (run_fails item why e) v o = ground (arith, error_result)
  Step-Live {s} small (run_starts item e) v o = ground arith
  Step-Live {s} small (run_sample item i is_eog piece e) v o =
      ground (arith, sampled is_eog piece i item (ground (arith, v.sound, e)))
  Step-Live {s} small (run_push r finished q e p) v o = ground (
    arith,
    push_accepted r q v.results_valid p,
    ends-append (contents M s.result_queue) (r ∷ []),
    length-append (ends (contents M s.result_queue)) (sender r ∷ []),
    append_assoc (ends (contents M s.result_queue)) (sender r ∷ [])
        (map owner (contents N s.sub_queue.queue)),
  )
  Step-Live {s} small (run_push r (go_on item i) q e p) v o = ground (
    arith,
    push_accepted r q v.results_valid p,
    ends-append (contents M s.result_queue) (r ∷ []),
    append-nil (ends (contents M s.result_queue)),
  )
  Step-Live {s} small (run_spin r next q e p) v o = rw (push_refused r q v.results_valid p) v
  Step-Live {s} small (run_ring finished e) v o = ground arith
  Step-Live {s} small (run_ring (go_on item i) e) v o = ground arith
  Step-Live {s} small (run_decoded item i e) v o = ground arith
  Step-Live {s} small (run_undecoded item i e) v o = ground (arith, done_result)
  Step-Live {s} small (ready_start e r) v o = ground arith
  Step-Live {s} small (ready_pop r q e p) v o = ground (
    arith,
    pop_given r q v.results_valid p,
    ends-append s.delivered (r ∷ []),
    append_assoc (ends s.delivered) (sender r ∷ [])
        (ends (contents M q) ++ (in_hand s.worker ++ map owner (contents N s.sub_queue.queue))),
    append-nil (ends s.delivered),
  )
  Step-Live {s} small (ready_next true e) v o = ground (arith, Live-small small v)
  Step-Live {s} small (ready_next false e) v o = ground arith
  Step-Live {s} small (ready_end q e p) v o = ground (arith, pop-none q v.results_valid p)
  Step-Live {s} small (stop_begin e) v o = ground arith
  Step-Live {s} small (stop_within last e) v o = ground arith
  Step-Live {s} small (stop_end within e w) v o = absurd (o refl)
