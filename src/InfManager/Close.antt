-- ===== src/InfManager/Close.antt =====
-- The end of a pool of inference workers.
use capy_js.Prelude.{ℕ, ◌≡◌, refl, true, false, List, ltb, if◌then◌else◌}
use capy_js.Workers.{stop_all_lem}
use capy_js.InfManager.{
  Packet, IWorker, Manager, has_model, js_dispatch, no_workers, js_get_progress, js_close,
}

module _ (W : IWorker) where
  -- Closing the engine stops each of its workers once and no other object, forgets every model, and
  -- makes every later call of `js_dispatch` with a function an error; the progress of the jobs is
  -- answered as before.
  pub close_ends_engine :
      (m : Manager W)
      → ((i : ℕ)
          → (js_close W m).workers i
            ≡ (if ltb i m.worker_size then W.stop (m.workers i) else m.workers i))
        × ((cls : List ℕ) → has_model cls (js_close W m).models ≡ false)
        × ((packet : Packet) (callback : ℕ)
            → js_dispatch W true packet callback (js_close W m) ≡ (no_workers, js_close W m))
        × ((id : ℕ) → js_get_progress W id (js_close W m) ≡ js_get_progress W id m)
  unfolding js_close js_dispatch js_get_progress has_model
  close_ends_engine m = (
    λ i. stop_all_lem W.stop m.worker_size m.workers i,
    λ cls. refl,
    λ packet callback. refl,
    λ id. refl,
  )
