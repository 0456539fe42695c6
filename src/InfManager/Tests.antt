-- ===== src/InfManager/Tests.antt =====
-- A manager of two workers, each by the number of jobs that it still takes.
use capy_js.Prelude.{
  ◌≢◌, ℕ, ◌+◌, ◌-◌, ◌≤◌, ◌≡◌, refl, arith, true, false, some, none, List, [], ◌∷◌, ◌++◌, ◌==◌, All,
  if◌then◌else◌,
}
use capy_js.Prelude.Text.{codes, same_text}
use capy_js.InfWorker.{InfResult}
use capy_js.InfManager.{
  pending, failed, done, unknown_model, Packet, IWorker, Spawned, spawn_workers, Manager, has_model,
  field, lacks_model, pick_worker, job_of, hand_over, js_dispatch, js_get_progress,
}
use capy_js.InfManager.Cores.{Apart, spawned_cores}
use capy_js.InfManager.Progress.{on_results, progress_follows_results}

abbrev room : IWorker
room = record {
  Worker = ℕ;
  enqueue = λ job callback n. if n == 0 then (false, n) else (true, n - 1);
  stop = λ n. n + 100;
}

abbrev ready : Manager room
ready = record {
  models = codes "small" ∷ [];
  workers = λ i. 1;
  worker_size = 2;
  job_status = λ id. none;
  next_job_id = 7;
  next_worker_idx = 0;
}

abbrev packet : Packet
packet = record {
  model_class = some (codes "small");
  session_id = none;
  client_id = none;
  prompt = some (codes "hi");
}

abbrev other : Packet
other = record packet { model_class = some (codes "large") }

model_unknown : (js_dispatch room true other 100 ready).0 ≡ unknown_model
unfolding js_dispatch lacks_model has_model same_text
model_unknown = refl

abbrev token : InfResult
token = record { job_id = 7; token = codes "he"; is_done = false; error = 0; callback = 100 }

abbrev of_another : InfResult
of_another = record { job_id = 5; token = codes "x"; is_done = true; error = 1; callback = 90 }

progress_follows_results_example :
    let m = (js_dispatch room true packet 100 ready).1 in
    (js_get_progress room 7 (on_results room (of_another ∷ []) m) ≡ some pending)
    × (token.error ≡ 0
        → js_get_progress room 7 (on_results room ([] ++ token ∷ of_another ∷ []) m) ≡ some done)
    × (token.error ≢ 0
        → js_get_progress room 7 (on_results room ([] ++ token ∷ of_another ∷ []) m) ≡ some failed)
unfolding js_dispatch lacks_model has_model same_text hand_over pick_worker job_of field
progress_follows_results_example =
    progress_follows_results room true packet 100 7 ready _ [] (of_another ∷ []) token refl refl
      ((λ e. absurd (omega (arith, e))), tt)

spawned_cores_example :
    (ws : List Spawned) × (spawn_workers 8 3 2048 0 ≡ some ws)
    × Apart ws
    × All (λ w. (1 ≤ w.core_start) × (w.core_start + w.core_count ≤ 8) × (w.core_count ≡ 2)) ws
spawned_cores_example = spawned_cores 8 3 2048 0 (omega arith) (omega arith)
