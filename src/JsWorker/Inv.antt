-- ===== src/JsWorker/Inv.antt =====
-- The invariant of a script worker: where each accepted job is, and that a script that fails to load
-- answers nothing.
use capy_js.Prelude.{ℕ, ◌+◌, ◌^◌, ◌<◌, ◌≤◌, ◌≡◌, ◌≢◌, refl, arith}
use capy_js.Prelude.{
  Bool, true, false, not, List, [], ◌∷◌, ◌++◌, map, length, append_assoc, map-append, length-append,
  ◌==◌,
}
use capy_js.Semaphore.{Semaphore}
use capy_js.Spsc
use capy_js.Spsc.{Spsc, IsSize}
use capy_js.Spsc.Inv.{IsValid, init-IsValid, count-lt}
use capy_js.Spsc.Refine.{contents, length-contents}
use capy_js.Spsc.Cases.{push_accepted, push_refused, pop_given, pop-none}
use capy_js.WorkQueue
use capy_js.WorkQueue.{WorkQueue}
use capy_js.WorkQueue.Cases.{enqueue_accepted, enqueue_refused, dequeue_given, dequeue-none}
use capy_js.JsWorker.{
  JsWorkItem, JsResult, Called, threw, gave, result_of, Worker, loading, failed, processing,
  pushing, Main, calling, joining, closed, World, start, Step, enqueue_ok, enqueue_full, run_fails,
  run_loads, run_take, run_leave, run_process, run_push, run_spin, run_ring, ready_start, ready_pop,
  ready_next, ready_end, stop_begin, stop_within, stop_end, Steps, here, later,
}

-- A job by its id and its callback.
abbrev pub owner : JsWorkItem → ℕ × ℕ
owner item = (item.job.job_id, item.callback)

abbrev pub sender : JsResult → ℕ × ℕ
sender r = (r.job_id, r.callback)

-- The job that the thread is at.
abbrev pub in_hand : Worker → List (ℕ × ℕ)
in_hand (processing item) = owner item ∷ []
in_hand (pushing r) = sender r ∷ []
in_hand _ = []

abbrev pub in_call : Main → ℕ
in_call calling = 1
in_call (joining true) = 1
in_call _ = 0

-- The thread has not come to its loop.
abbrev pub unloaded : Worker → Bool
unloaded loading = true
unloaded failed = true
unloaded _ = false

sender-result_of : (out : Called) (item : JsWorkItem) → sender (result_of out item) ≡ owner item
unfolding result_of
sender-result_of (threw msg) item = refl
sender-result_of (gave out) item = refl

length-in_hand : (w : Worker) → length (in_hand w) ≤ 1
length-in_hand w = ground arith

module _ (S : Semaphore) (N M : ℕ) where
  pub record Live (s : World S) : Type 0 where
    pub items_valid : IsValid N s.sub_queue.queue
    pub results_valid : IsValid M s.result_queue
    pub kept :
        map owner s.accepted
        ≡ map sender s.delivered
          ++ (map sender (contents M s.result_queue)
              ++ (in_hand s.worker ++ map owner (contents N s.sub_queue.queue)))
    pub counted :
        s.in_flight
        ≡ length (contents M s.result_queue)
          + length (in_hand s.worker)
          + length (contents N s.sub_queue.queue)
          + in_call s.main
    pub keeps : s.referenced ≡ not (s.in_flight == 0)
    pub silent :
        unloaded s.worker ≡ true
        → (s.delivered ≡ []) × (contents M s.result_queue ≡ []) × (in_call s.main ≡ 0)

  pub start-Live :
      (items : ℕ → JsWorkItem) (results : ℕ → JsResult)
      → IsSize N
      → IsSize M
      → Live (start S items results)
  unfolding start contents WorkQueue.init Spsc.init
  start-Live items results n m = record {
    items_valid = init-IsValid items n;
    results_valid = init-IsValid results m;
    kept = refl;
    counted = refl;
    keeps = refl;
    silent = λ _. (refl, refl, refl);
  }

  Live-small : {s : World S} → N + M < 2 ^ 31 → Live s → s.in_flight < 2 ^ 31
  Live-small {s} small v = ground (
    arith,
    count-lt v.items_valid,
    count-lt v.results_valid,
    length-contents N s.sub_queue.queue,
    length-contents M s.result_queue,
    length-in_hand s.worker,
  )

  Step-Live : {s t : World S} → N + M < 2 ^ 31 → Step S N M s t → Live s → t.main ≢ closed → Live t
  unfolding WorkQueue.stop
  Step-Live {s} small (enqueue_ok item q e p) v o = ground (
    arith,
    Live-small small v,
    enqueue_accepted S N s.sub_queue item q v.items_valid p,
    map-append owner s.accepted (item ∷ []),
    map-append owner (contents N s.sub_queue.queue) (item ∷ []),
    append_assoc (map sender s.delivered)
        (map sender (contents M s.result_queue)
          ++ (in_hand s.worker ++ map owner (contents N s.sub_queue.queue)))
        (owner item ∷ []),
    append_assoc (map sender (contents M s.result_queue))
        (in_hand s.worker ++ map owner (contents N s.sub_queue.queue)) (owner item ∷ []),
    append_assoc (in_hand s.worker) (map owner (contents N s.sub_queue.queue)) (owner item ∷ []),
    length-append (contents N s.sub_queue.queue) (item ∷ []),
  )
  Step-Live {s} small (enqueue_full item q e p) v o =
      rw (enqueue_refused S N s.sub_queue item q v.items_valid p) v
  Step-Live {s} small (run_fails e) v o = ground arith
  Step-Live {s} small (run_loads e) v o = ground arith
  Step-Live {s} small (run_take item q e p) v o =
      ground (arith, dequeue_given S N s.sub_queue item q v.items_valid p)
  Step-Live {s} small (run_leave q e p) v o =
      ground (arith, dequeue-none S N s.sub_queue q v.items_valid p)
  Step-Live {s} small (run_process item out e) v o = ground (arith, sender-result_of out item)
  Step-Live {s} small (run_push r q e p) v o = ground (
    arith,
    push_accepted r q v.results_valid p,
    map-append sender (contents M s.result_queue) (r ∷ []),
    length-append (contents M s.result_queue) (r ∷ []),
    append_assoc (map sender (contents M s.result_queue)) (sender r ∷ [])
        (map owner (contents N s.sub_queue.queue)),
  )
  Step-Live {s} small (run_spin r q e p) v o = rw (push_refused r q v.results_valid p) v
  Step-Live {s} small (run_ring e) v o = ground arith
  Step-Live {s} small (ready_start e r) v o = ground arith
  Step-Live {s} small (ready_pop r q e p) v o = ground (
    arith,
    pop_given r q v.results_valid p,
    map-append sender s.delivered (r ∷ []),
    append_assoc (map sender s.delivered) (sender r ∷ []) (
        map sender (contents M q)
        ++ (in_hand s.worker ++ map owner (contents N s.sub_queue.queue))),
  )
  Step-Live {s} small (ready_next e) v o = ground (arith, Live-small small v)
  Step-Live {s} small (ready_end q e p) v o = ground (arith, pop-none q v.results_valid p)
  Step-Live {s} small (stop_begin e) v o = ground arith
  Step-Live {s} small (stop_within e) v o = ground arith
  Step-Live {s} small (stop_end within e w) v o = absurd (o refl)

  closed_stays : {s t : World S} → Step S N M s t → s.main ≡ closed → t.main ≡ closed
  closed_stays (enqueue_ok item q e p) c = c
  closed_stays (enqueue_full item q e p) c = c
  closed_stays (run_fails e) c = c
  closed_stays (run_loads e) c = c
  closed_stays (run_take item q e p) c = c
  closed_stays (run_leave q e p) c = c
  closed_stays (run_process item out e) c = c
  closed_stays (run_push r q e p) c = c
  closed_stays (run_spin r q e p) c = c
  closed_stays (run_ring e) c = c
  closed_stays (ready_start e r) c = cc
  closed_stays (ready_pop r q e p) c = cc
  closed_stays (ready_next e) c = cc
  closed_stays (ready_end q e p) c = cc
  closed_stays (stop_begin e) c = cc
  closed_stays (stop_within e) c = cc
  closed_stays (stop_end within e w) c = refl

  pub Steps-Live :
      {s t : World S} → N + M < 2 ^ 31 → Steps S N M s t → Live s → t.main ≢ closed → Live t
  Steps-Live small here v o = v
  Steps-Live {s} {t} small (later {t = u} r st) v o =
      Step-Live small st (Steps-Live small r v (λ c. o (closed_stays st c))) o
