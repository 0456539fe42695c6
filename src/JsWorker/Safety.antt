-- ===== src/JsWorker/Safety.antt =====
-- What the scripts may rely on of a script worker, and what they may not.
use capy_js.Prelude.{ℕ, ◌+◌, ◌^◌, ◌<◌, ◌≡◌, ◌≢◌, refl, ap, arith}
use capy_js.Prelude.{not, List, [], ◌∷◌, ◌++◌, map, length, ◌==◌}
use capy_js.Semaphore.{Semaphore}
use capy_js.Spsc.{IsSize}
use capy_js.Spsc.Refine.{contents}
use capy_js.JsWorker.{JsWorkItem, JsResult, failed, closed, World, start, Steps}
use capy_js.JsWorker.Inv.{owner, sender, in_hand, Live, start-Live, Steps-Live}

length-map : {A B : Type 0} (f : A → B) (xs : List A) → length (map f xs) ≡ length xs
length-map f [] = refl
length-map f (x ∷ xs) = omega (arith, length-map f xs)

module _ (S : Semaphore) {N M : ℕ} (items : ℕ → JsWorkItem) (results : ℕ → JsResult) (n : IsSize N)
    (m : IsSize M) (small : N + M < 2 ^ 31) where
  live : {t : World S} → Steps S N M (start S items results) t → t.main ≢ closed → Live S N M t
  live r o = Steps-Live S N M small r (start-Live S N M items results n m) o

  -- Until the worker is closed, in every interleaving of the two threads and whatever the worker's
  -- script does, each accepted job is in exactly one place, in the order of acceptance, with its id and
  -- callback: its result has been handed to the manager, or waits in the result queue, or the thread is
  -- at the job, or it waits in the submission queue.
  pub each_job_in_one_place :
      {t : World S}
      → Steps S N M (start S items results) t
      → t.main ≢ closed
      → map owner t.accepted
        ≡ map sender t.delivered
          ++ (map sender (contents M t.result_queue)
              ++ (in_hand t.worker ++ map owner (contents N t.sub_queue.queue)))
  each_job_in_one_place r o = (live r o).kept

  -- When the worker's script could not be loaded, no accepted job is ever answered: until the worker is
  -- closed nothing has been delivered and no result waits, all jobs wait in the submission queue, and
  -- with one job or more the doorbell keeps the event loop alive.
  pub failed_script_never_answers :
      {t : World S}
      → Steps S N M (start S items results) t
      → t.main ≢ closed
      → t.worker ≡ failed
      → (t.delivered ≡ [])
        × (contents M t.result_queue ≡ [])
        × (map owner t.accepted ≡ map owner (contents N t.sub_queue.queue))
        × (t.referenced ≡ not (length t.accepted == 0))
  failed_script_never_answers {t} r o f =
      let v = live r o in
      let (none_told, none_waits, outside) = v.silent (rw f refl) in
      let waiting = contents N t.sub_queue.queue in
      let kept : map owner t.accepted ≡ map owner waiting =
        ground (arith, v.kept, none_told, none_waits, f) in
      let count : t.in_flight ≡ length t.accepted = ground (
        arith,
        v.counted,
        none_waits,
        outside,
        f,
        ap length kept,
        length-map owner t.accepted,
        length-map owner waiting,
      ) in
      (none_told, none_waits, kept, ground (arith, v.keeps, count))
