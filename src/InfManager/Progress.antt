-- ===== src/InfManager/Progress.antt =====
-- What a script learns of an inference job.
use capy_js.Prelude.{ℕ, ◌%◌, ◌≡◌, ◌≢◌, refl, sym, ◌∙◌, arith, Bool, Bool-cases, inl, inr}
use capy_js.Prelude.{true, false, some, List, [], ◌∷◌, ◌++◌, ◌==◌, All, add_size, update}
use capy_js.InfWorker.{InfResult}
use capy_js.InfManager.{
  pending, done, failed, no_workers, unknown_model, queue_full, job_id, Packet, IWorker, Manager,
  pick_worker, job_of, lacks_model, hand_over, js_dispatch, status_of, on_result, js_get_progress,
}

module _ (W : IWorker) where
  -- Any results, of this job and of others.
  abbrev pub on_results : List InfResult → Manager W → Manager W
  on_results [] m = m
  on_results (r ∷ rs) m = on_results rs (on_result W r m).1

  untouched :
      (id : ℕ) (ts : List InfResult) (m : Manager W)
      → All (λ t. t.job_id ≢ id) ts
      → js_get_progress W id (on_results ts m) ≡ js_get_progress W id m
  unfolding on_result js_get_progress
  untouched id [] m h = refl
  untouched id (t ∷ ts) m (h, hs) =
      let here : js_get_progress W id (on_result W t m).1 ≡ js_get_progress W id m =
        ground (arith, h) in
      untouched id ts (on_result W t m).1 hs ∙ here

  last_told :
      (id : ℕ) (rs : List InfResult) (r : InfResult) (ts : List InfResult) (m : Manager W)
      → r.job_id ≡ id
      → All (λ t. t.job_id ≢ id) ts
      → js_get_progress W id (on_results (rs ++ r ∷ ts) m) ≡ some (status_of W r)
  unfolding on_result js_get_progress
  last_told id [] r ts m e h =
      let here : js_get_progress W id (on_result W r m).1 ≡ some (status_of W r) =
        ground (arith, e) in
      untouched id ts (on_result W r m).1 h ∙ here
  last_told id (q ∷ rs) r ts m e h = last_told id rs r ts (on_result W q m).1 e h

  handed_over :
      (packet : Packet) (callback id : ℕ) (m m' : Manager W)
      → hand_over W packet callback m ≡ (job_id id, m')
      → js_get_progress W id m' ≡ some pending
  unfolding hand_over pick_worker js_get_progress
  handed_over packet callback id m m' e =
      let i = m.next_worker_idx % m.worker_size in
      let call = W.enqueue (job_of W m.next_job_id packet) callback (m.workers i) in
      let next = record m {
        next_job_id = add_size m.next_job_id 1;
        next_worker_idx = add_size m.next_worker_idx 1;
        workers = update m.workers i call.1;
      } in
      let known = record next { job_status = update m.job_status m.next_job_id (some pending) } in
      elim (Bool-cases call.0) [
        | inl taken ↦
            let r : hand_over W packet callback m ≡ (job_id m.next_job_id, known) =
              rw (hand_over, taken) refl in
            let same : known ≡ m' = cc in
            let name : m.next_job_id ≡ id = cc in rw (← same, ← name) (ground arith)
        | inr full ↦
            let r : hand_over W packet callback m ≡ (queue_full i, next) =
              rw (hand_over, full) refl in
            cc
      ]

  dispatched :
      (is_function : Bool) (packet : Packet) (callback id : ℕ) (m m' : Manager W)
      → js_dispatch W is_function packet callback m ≡ (job_id id, m')
      → hand_over W packet callback m ≡ (job_id id, m')
  unfolding js_dispatch
  dispatched false packet callback id m m' e = cc
  dispatched true packet callback id m m' e = elim (Bool-cases (m.worker_size == 0)) [
    | inl bare ↦
        let r : js_dispatch W true packet callback m ≡ (no_workers, m) =
          rw (js_dispatch, bare) refl in
        cc
    | inr some_left ↦ elim (Bool-cases (lacks_model W packet.model_class m)) [
      | inl lacks ↦
          let r : js_dispatch W true packet callback m ≡ (unknown_model, m) =
            rw (js_dispatch, some_left, lacks) refl in
          cc
      | inr has ↦
          let r : js_dispatch W true packet callback m ≡ hand_over W packet callback m =
            rw (js_dispatch, some_left, has) refl in
          sym r ∙ e
    ]
  ]

  -- The progress of an accepted job is "pending" until its first result, whatever results come for
  -- other jobs; from then on its last result tells it: "error" if that has an error, and else "done",
  -- also when it is a token with more to come.
  pub progress_follows_results :
      (is_function : Bool) (packet : Packet) (callback id : ℕ) (m m' : Manager W)
      (rs ts : List InfResult) (r : InfResult)
      → js_dispatch W is_function packet callback m ≡ (job_id id, m')
      → r.job_id ≡ id
      → All (λ t. t.job_id ≢ id) ts
      → (js_get_progress W id (on_results ts m') ≡ some pending)
        × (r.error ≡ 0 → js_get_progress W id (on_results (rs ++ r ∷ ts) m') ≡ some done)
        × (r.error ≢ 0 → js_get_progress W id (on_results (rs ++ r ∷ ts) m') ≡ some failed)
  progress_follows_results is_function packet callback id m m' rs ts r e own h = (
    untouched id ts m' h
        ∙ handed_over packet callback id m m' (dispatched is_function packet callback id m m' e),
    λ fine. last_told id rs r ts m' own h ∙ rw fine refl,
    λ bad.
        let wrong : r.error == 0 ≡ false = ground (arith, bad) in
        last_told id rs r ts m' own h ∙ rw wrong refl,
  )
