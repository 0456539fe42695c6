-- ===== src/InfWorker/Safety.antt =====
-- What the scripts may rely on while an inference worker runs and after it is stopped.
use capy_js.Prelude.{ℕ, ◌+◌, ◌^◌, ◌<◌, ◌≡◌, ◌≢◌, refl, ap, arith, ◌⊎◌, inl, inr}
use capy_js.Prelude.{not, List, [], ◌∷◌, ◌++◌, map, length, length-append, ◌==◌}
use capy_js.Semaphore.{Semaphore}
use capy_js.Spsc
use capy_js.Spsc.{IsSize}
use capy_js.Spsc.Inv.{count-lt}
use capy_js.Spsc.Refine.{contents, length-contents}
use capy_js.WorkQueue.Drain.{drain_loop_lem, drain_takes_all}
use capy_js.InfWorker.{
  InfWorkItem, InfResult, exited, Main, idle, draining, calling, joining, closed, World, start,
  Step, enqueue_ok, enqueue_full, run_take, run_leave, run_fails, run_starts, run_sample, run_push,
  run_spin, run_ring, run_decoded, run_undecoded, ready_start, ready_pop, ready_next, ready_end,
  stop_begin, stop_within, stop_end, Steps, here, later,
}
use capy_js.InfWorker.Ends.{owner, ends, in_hand}
use capy_js.InfWorker.Inv.{Live, start-Live, Step-Live}
use capy_js.InfWorker.Streams.{Streams, Step-Streams, freed_lem}

map-owner : (is : List InfWorkItem) → map (λ i. i.callback) is ≡ map (λ e. e.1) (map owner is)
map-owner [] = refl
map-owner (i ∷ is) = ap (◌∷◌ i.callback) (map-owner is)

length-map : {A B : Type 0} (f : A → B) (xs : List A) → length (map f xs) ≡ length xs
length-map f [] = refl
length-map f (x ∷ xs) = omega (arith, length-map f xs)

module _ (S : Semaphore) (N M : ℕ) where
  -- Past `stop`: what is left of the two queues has been freed.
  record Ended (s : World S) : Type 0 where
    shut : s.main ≡ closed
    gone : s.worker ≡ exited
    items : List InfWorkItem
    streams : List (ℕ × ℕ)
    kept : map owner s.accepted ≡ ends s.delivered ++ (streams ++ map owner items)
    freed : s.freed ≡ map (λ e. e.1) (map owner items) ++ map (λ e. e.1) streams

  Step-Ended :
      {s t : World S}
      → Step S N M s t
      → Live S N M s
      → Streams S N M s
      → s.main ≢ closed
      → t.main ≡ closed
      → Ended t
  Step-Ended {s} (stop_end within e w) v h k o =
      let (items, _, _) = drain_takes_all S N s.sub_queue v.items_valid in
      let (results, _, _) =
        drain_loop_lem M s.result_queue v.results_valid
          (rw (length-contents M s.result_queue) (count-lt v.results_valid)) in
      let rest = contents M s.result_queue in
      record {
        shut = refl;
        gone = w;
        items = contents N s.sub_queue.queue;
        streams = ends rest;
        kept = rw w at v.kept;
        freed =
            rw
              (items, results, freed_lem rest (rw w at h), map-owner (contents N s.sub_queue.queue))
              refl;
      }
  Step-Ended (enqueue_ok item q e p) v h k o = absurd (k o)
  Step-Ended (enqueue_full item q e p) v h k o = absurd (k o)
  Step-Ended (run_take item q e p) v h k o = absurd (k o)
  Step-Ended (run_leave q e p) v h k o = absurd (k o)
  Step-Ended (run_fails item why e) v h k o = absurd (k o)
  Step-Ended (run_starts item e) v h k o = absurd (k o)
  Step-Ended (run_sample item i is_eog piece e) v h k o = absurd (k o)
  Step-Ended (run_push r next q e p) v h k o = absurd (k o)
  Step-Ended (run_spin r next q e p) v h k o = absurd (k o)
  Step-Ended (run_ring next e) v h k o = absurd (k o)
  Step-Ended (run_decoded item i e) v h k o = absurd (k o)
  Step-Ended (run_undecoded item i e) v h k o = absurd (k o)
  Step-Ended (ready_start e r) v h k o = cc
  Step-Ended (ready_pop r q e p) v h k o = cc
  Step-Ended (ready_next b e) v h k o = cc
  Step-Ended (ready_end q e p) v h k o = cc
  Step-Ended (stop_begin e) v h k o = cc
  Step-Ended (stop_within last e) v h k o = cc

  -- Nothing happens any more past `stop`.
  Ended-final : {s t : World S} → Step S N M s t → Ended s → ⊥
  Ended-final (enqueue_ok item q (inl e) p) d = cc d.shut
  Ended-final (enqueue_ok item q (inr (b, e)) p) d = cc d.shut
  Ended-final (enqueue_full item q (inl e) p) d = cc d.shut
  Ended-final (enqueue_full item q (inr (b, e)) p) d = cc d.shut
  Ended-final (run_take item q e p) d = cc d.gone
  Ended-final (run_leave q e p) d = cc d.gone
  Ended-final (run_fails item why e) d = cc d.gone
  Ended-final (run_starts item e) d = cc d.gone
  Ended-final (run_sample item i is_eog piece e) d = cc d.gone
  Ended-final (run_push r next q e p) d = cc d.gone
  Ended-final (run_spin r next q e p) d = cc d.gone
  Ended-final (run_ring next e) d = cc d.gone
  Ended-final (run_decoded item i e) d = cc d.gone
  Ended-final (run_undecoded item i e) d = cc d.gone
  Ended-final (ready_start e r) d = cc d.shut
  Ended-final (ready_pop r q e p) d = cc d.shut
  Ended-final (ready_next b e) d = cc d.shut
  Ended-final (ready_end q e p) d = cc d.shut
  Ended-final (stop_begin e) d = cc d.shut
  Ended-final (stop_within last e) d = cc d.shut
  Ended-final (stop_end within e w) d = cc d.shut

  closed-cases : (m : Main) → (m ≡ closed) ⊎ (m ≢ closed)
  closed-cases idle = inr (λ e. cc)
  closed-cases draining = inr (λ e. cc)
  closed-cases (calling d) = inr (λ e. cc)
  closed-cases (joining within) = inr (λ e. cc)
  closed-cases closed = inl refl

  -- Before `stop` is over.
  record Running (s : World S) : Type 0 where
    live : Live S N M s
    streams : Streams S N M s
    open_yet : s.main ≢ closed

  Steps-Inv : {s t : World S} → N + M < 2 ^ 31 → Steps S N M s t → Running s → Running t ⊎ Ended t
  Steps-Inv small here v = inl v
  Steps-Inv {s} {t} small (later {t = u} r st) v = elim (Steps-Inv small r v) [
    | inl w ↦ elim (closed-cases t.main) [
      | inl o ↦ inr (Step-Ended st w.live w.streams w.open_yet o)
      | inr o ↦ inl record {
        live = Step-Live S N M small st w.live o;
        streams = Step-Streams S N M st w.live w.streams o;
        open_yet = o;
      }
    ]
    | inr d ↦ absurd (Ended-final st d)
  ]

module _ (S : Semaphore) {N M : ℕ} (items : ℕ → InfWorkItem) (results : ℕ → InfResult)
    (n : IsSize N) (m : IsSize M) (small : N + M < 2 ^ 31) where
  begun : Running S N M (start S items results)
  unfolding start Spsc.init contents
  begun = record { live = start-Live S N M items results n m; streams = tt; open_yet = λ e. cc }

  live : {t : World S} → Steps S N M (start S items results) t → t.main ≢ closed → Live S N M t
  live r o = elim (Steps-Inv S N M small r begun) [ inl v ↦ v.live | inr d ↦ absurd (o d.shut) ]

  -- Until the worker is closed, in every interleaving of the two threads, each accepted job has exactly
  -- one last result, in the order of acceptance and with the id and the callback of the job: it has been
  -- handed to the manager, or waits in the result queue, or is still to come, of the job that the thread
  -- is at or of one that waits in the submission queue.
  pub one_end_per_job :
      {t : World S}
      → Steps S N M (start S items results) t
      → t.main ≢ closed
      → map owner t.accepted
        ≡ ends t.delivered
          ++ (ends (contents M t.result_queue)
              ++ (in_hand t.worker ++ map owner (contents N t.sub_queue.queue)))
  one_end_per_job r o = (live r o).kept

  -- The doorbell keeps the event loop alive exactly while an accepted job has not got its last result,
  -- however many tokens it has got, as seen whenever the main thread is outside the worker's methods.
  pub loop_alive_while_streaming :
      {t : World S}
      → Steps S N M (start S items results) t
      → t.main ≡ idle
      → (t.referenced ≡ not (length t.accepted == length (ends t.delivered)))
        × (length t.accepted ≡ length (ends t.delivered) + t.in_flight)
  loop_alive_while_streaming {t} r e =
      let v = live r (λ c. cc) in
      let queue = contents N t.sub_queue.queue in
      let waiting = ends (contents M t.result_queue) in
      let sizes : length t.accepted ≡ length (ends t.delivered) + t.in_flight = ground (
        arith,
        ap length v.kept,
        length-map owner t.accepted,
        length-map owner queue,
        length-append (ends t.delivered) (waiting ++ (in_hand t.worker ++ map owner queue)),
        length-append waiting (in_hand t.worker ++ map owner queue),
        length-append (in_hand t.worker) (map owner queue),
      ) in
      (ground (arith, v.keeps, sizes), sizes)
