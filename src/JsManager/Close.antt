-- ===== src/JsManager/Close.antt =====
-- The end of a pool of script workers.
use capy_js.Prelude.{ℕ, ◌≡◌, refl, true, Option, List, ltb, if◌then◌else◌}
use capy_js.Workers.{stop_all, stop_all_lem}
use capy_js.JsManager.{IWorker, Manager, js_dispatch, js_get_progress, js_close, no_workers}

module _ (W : IWorker) where
  -- Closing a pool stops each of its workers once and no other object, a second `js_close` changes
  -- nothing, and every later `js_dispatch` with a function returns an error and takes nothing; what the
  -- script asks of a job's progress is answered as before, so a job that was pending stays so.
  pub close_stops_each_once :
      (m : Manager W)
      → ((i : ℕ)
          → (js_close W m).workers i
            ≡ (if ltb i m.worker_size then W.stop (m.workers i) else m.workers i))
        × (js_close W (js_close W m) ≡ js_close W m)
        × ((input : Option (List ℕ)) (callback : ℕ)
            → js_dispatch W true input callback (js_close W m) ≡ (no_workers, js_close W m))
        × ((id : ℕ) → js_get_progress W id (js_close W m) ≡ js_get_progress W id m)
  unfolding js_close js_dispatch js_get_progress stop_all
  close_stops_each_once m =
      (λ i. stop_all_lem W.stop m.worker_size m.workers i, refl, λ input callback. refl, λ id. refl)
