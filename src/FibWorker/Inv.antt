-- ===== src/FibWorker/Inv.antt =====
-- The invariant of a worker with its two queues: where each accepted job is, and what the counter and
-- the doorbell have to do with it.
use capy_js.Prelude.{ℕ, ◌+◌, ◌^◌, ◌<◌, ◌≡◌, ◌≢◌, refl, arith, ◌⊎◌, inl, inr}
use capy_js.Prelude.{
  Bool, true, false, not, ◌||◌, List, [], ◌∷◌, ◌++◌, map, length, append_assoc, map-append,
  length-append, ◌==◌,
}
use capy_js.Semaphore.{Semaphore}
use capy_js.Spsc
use capy_js.Spsc.{Spsc, IsSize}
use capy_js.Spsc.Inv.{IsValid, init-IsValid, count-lt}
use capy_js.Spsc.Refine.{contents, length-contents}
use capy_js.Spsc.Cases.{push_accepted, push_refused, pop_given, pop-none}
use capy_js.WorkQueue
use capy_js.WorkQueue.{WorkQueue}
use capy_js.WorkQueue.Drain.{drain_loop_lem, drain_takes_all}
use capy_js.WorkQueue.Cases.{enqueue_accepted, enqueue_refused, dequeue_given, dequeue-none}
use capy_js.FibWorker.{
  WorkItem, FibResult, result_of, Worker, computing, pushing, ringing, exited, Main, idle, draining,
  calling, joining, closed, World, start, Step, enqueue_ok, enqueue_full, run_take, run_leave,
  run_compute, run_push, run_spin, run_ring, ready_start, ready_pop, ready_next, ready_end,
  stop_begin, stop_within, stop_end, Steps, here, later,
}

-- The result that the worker's thread holds, or is about to have.
abbrev pub held : Worker → List FibResult
held (computing item) = result_of item ∷ []
held (pushing result) = result ∷ []
held _ = []

-- A call of `on_result` is counted until it returns.
abbrev pub in_call : Main → ℕ
in_call calling = 1
in_call (joining true) = 1
in_call _ = 0

abbrev pub is_ringing : Worker → Bool
is_ringing ringing = true
is_ringing _ = false

-- The main thread is in the callback, or gives the callback up.
abbrev pub is_busy : Main → Bool
is_busy idle = false
is_busy _ = true

module _ (S : Semaphore) (N M : ℕ) where
  pub record Live (s : World S) : Type 0 where
    pub items_valid : IsValid N s.sub_queue.queue
    pub results_valid : IsValid M s.result_queue
    pub kept :
        map result_of s.accepted
        ≡ s.delivered
          ++ (contents M s.result_queue
              ++ (held s.worker ++ map result_of (contents N s.sub_queue.queue)))
    pub counted :
        s.in_flight
        ≡ length (contents M s.result_queue)
          + length (held s.worker)
          + length (contents N s.sub_queue.queue)
          + in_call s.main
    pub keeps : s.referenced ≡ not (s.in_flight == 0)
    pub heard :
        s.rung || (is_ringing s.worker || is_busy s.main) ≡ false → contents M s.result_queue ≡ []
    pub open_yet : s.main ≢ closed

  pub start-Live :
      (items : ℕ → WorkItem) (results : ℕ → FibResult)
      → IsSize N
      → IsSize M
      → Live (start S items results)
  unfolding start contents WorkQueue.init Spsc.init
  start-Live items results n m = record {
    items_valid = init-IsValid items n;
    results_valid = init-IsValid results m;
    kept = refl;
    counted = refl;
    keeps = refl;
    heard = λ _. refl;
    open_yet = λ e. cc;
  }

  -- All that is accepted stays below what an `int` counts.
  Live-small : {s : World S} → N + M < 2 ^ 31 → Live s → s.in_flight < 2 ^ 31
  Live-small {s} small v = ground (
    arith,
    count-lt v.items_valid,
    count-lt v.results_valid,
    length-contents N s.sub_queue.queue,
    length-contents M s.result_queue,
  )

  Step-Live : {s t : World S} → N + M < 2 ^ 31 → Step S N M s t → Live s → t.main ≢ closed → Live t
  unfolding WorkQueue.stop
  Step-Live {s} small (enqueue_ok item q e p) v o = ground (
    arith,
    Live-small small v,
    enqueue_accepted S N s.sub_queue item q v.items_valid p,
    map-append result_of s.accepted (item ∷ []),
    map-append result_of (contents N s.sub_queue.queue) (item ∷ []),
    append_assoc s.delivered
        (contents M s.result_queue
          ++ (held s.worker ++ map result_of (contents N s.sub_queue.queue)))
        (result_of item ∷ []),
    append_assoc (contents M s.result_queue)
        (held s.worker ++ map result_of (contents N s.sub_queue.queue)) (result_of item ∷ []),
    append_assoc (held s.worker) (map result_of (contents N s.sub_queue.queue))
        (result_of item ∷ []),
    length-append (contents N s.sub_queue.queue) (item ∷ []),
  )
  Step-Live {s} small (enqueue_full item q e p) v o =
      rw (enqueue_refused S N s.sub_queue item q v.items_valid p) v
  Step-Live {s} small (run_take item q e p) v o =
      ground (arith, dequeue_given S N s.sub_queue item q v.items_valid p)
  Step-Live {s} small (run_leave q e p) v o =
      ground (arith, dequeue-none S N s.sub_queue q v.items_valid p)
  Step-Live {s} small (run_compute item e) v o = ground arith
  Step-Live {s} small (run_push result q e p) v o = ground (
    arith,
    push_accepted result q v.results_valid p,
    length-append (contents M s.result_queue) (result ∷ []),
    append_assoc (contents M s.result_queue) (result ∷ [])
        (map result_of (contents N s.sub_queue.queue)),
  )
  Step-Live {s} small (run_spin result q e p) v o = rw (push_refused result q v.results_valid p) v
  Step-Live {s} small (run_ring e) v o = ground arith
  Step-Live {s} small (ready_start e r) v o = ground arith
  Step-Live {s} small (ready_pop r q e p) v o = ground (
    arith,
    pop_given r q v.results_valid p,
    append_assoc s.delivered (r ∷ [])
        (contents M q ++ (held s.worker ++ map result_of (contents N s.sub_queue.queue))),
  )
  Step-Live {s} small (ready_next e) v o = ground (arith, Live-small small v)
  Step-Live {s} small (ready_end q e p) v o = ground (arith, pop-none q v.results_valid p)
  Step-Live {s} small (stop_begin e) v o = ground arith
  Step-Live {s} small (stop_within e) v o = ground arith
  Step-Live {s} small (stop_end within e w) v o = absurd (o refl)

  -- Past `stop`: what is left of the two queues has been freed.
  pub record Ended (s : World S) : Type 0 where
    pub shut : s.main ≡ closed
    pub gone : s.worker ≡ exited
    pub items : List WorkItem
    pub results : List FibResult
    pub kept : map result_of s.accepted ≡ s.delivered ++ (results ++ map result_of items)
    pub freed : s.freed ≡ map (λ i. i.callback) items ++ map (λ r. r.callback) results

  -- What `stop_end` drains is what the two rings hold.
  Step-Ended : {s t : World S} → Step S N M s t → Live s → t.main ≡ closed → Ended t
  Step-Ended {s} (stop_end within e w) v o =
      let (items, _, _) = drain_takes_all S N s.sub_queue v.items_valid in
      let (results, _, _) =
        drain_loop_lem M s.result_queue v.results_valid
          (rw (length-contents M s.result_queue) (count-lt v.results_valid)) in
      record {
        shut = refl;
        gone = w;
        items = contents N s.sub_queue.queue;
        results = contents M s.result_queue;
        kept = rw w at v.kept;
        freed = rw (items, results) refl;
      }
  Step-Ended (enqueue_ok item q e p) v o = absurd (v.open_yet o)
  Step-Ended (enqueue_full item q e p) v o = absurd (v.open_yet o)
  Step-Ended (run_take item q e p) v o = absurd (v.open_yet o)
  Step-Ended (run_leave q e p) v o = absurd (v.open_yet o)
  Step-Ended (run_compute item e) v o = absurd (v.open_yet o)
  Step-Ended (run_push result q e p) v o = absurd (v.open_yet o)
  Step-Ended (run_spin result q e p) v o = absurd (v.open_yet o)
  Step-Ended (run_ring e) v o = absurd (v.open_yet o)
  Step-Ended (ready_start e r) v o = cc
  Step-Ended (ready_pop r q e p) v o = cc
  Step-Ended (ready_next e) v o = cc
  Step-Ended (ready_end q e p) v o = cc
  Step-Ended (stop_begin e) v o = cc
  Step-Ended (stop_within e) v o = cc

  -- Nothing happens any more past `stop`.
  Ended-final : {s t : World S} → Step S N M s t → Ended s → ⊥
  Ended-final (enqueue_ok item q (inl e) p) d = cc d.shut
  Ended-final (enqueue_ok item q (inr e) p) d = cc d.shut
  Ended-final (enqueue_full item q (inl e) p) d = cc d.shut
  Ended-final (enqueue_full item q (inr e) p) d = cc d.shut
  Ended-final (run_take item q e p) d = cc d.gone
  Ended-final (run_leave q e p) d = cc d.gone
  Ended-final (run_compute item e) d = cc d.gone
  Ended-final (run_push result q e p) d = cc d.gone
  Ended-final (run_spin result q e p) d = cc d.gone
  Ended-final (run_ring e) d = cc d.gone
  Ended-final (ready_start e r) d = cc d.shut
  Ended-final (ready_pop r q e p) d = cc d.shut
  Ended-final (ready_next e) d = cc d.shut
  Ended-final (ready_end q e p) d = cc d.shut
  Ended-final (stop_begin e) d = cc d.shut
  Ended-final (stop_within e) d = cc d.shut
  Ended-final (stop_end within e w) d = cc d.shut

  closed-cases : (m : Main) → (m ≡ closed) ⊎ (m ≢ closed)
  closed-cases idle = inr (λ e. cc)
  closed-cases draining = inr (λ e. cc)
  closed-cases calling = inr (λ e. cc)
  closed-cases (joining within) = inr (λ e. cc)
  closed-cases closed = inl refl

  pub Steps-Inv : {s t : World S} → N + M < 2 ^ 31 → Steps S N M s t → Live s → Live t ⊎ Ended t
  Steps-Inv small here v = inl v
  Steps-Inv {s} {t} small (later {t = u} r st) v = elim (Steps-Inv small r v) [
    | inl w ↦ elim (closed-cases t.main) [
      | inl o ↦ inr (Step-Ended st w o)
      | inr o ↦ inl (Step-Live small st w o)
    ]
    | inr d ↦ absurd (Ended-final st d)
  ]
