-- ===== src/FibManager/Progress.antt =====
-- What a script learns of its jobs, and which worker gets them.
use capy_js.Prelude.{
  Bool, ◌⊎◌, subst, ℕ, ◌+◌, ◌%◌, ◌<◌, ◌≡◌, ◌≢◌, refl, arith, ◌∙◌, Bool-cases, inl, inr,
}
use capy_js.Prelude.{
  true, false, Option, none, some, List, [], ◌∷◌, ◌==◌, if◌then◌else◌, elem, elem-lt, All, size_mod,
  add_size, update,
}
use capy_js.FibWorker.{FibJob, FibResult}
use capy_js.FibManager.{
  JobStatus, pending, done, failed, no_workers, not_a_function, queue_full, job_id, IWorker,
  Manager, init, pick_worker, js_dispatch, on_result, js_close, js_get_progress,
}

-- What is true of a job, by the lists of the jobs accepted, done and failed.
abbrev pub status : List ℕ → List ℕ → List ℕ → ℕ → Option JobStatus
status accepted finished broken id =
    if elem id finished
    then some done
    else (if elem id broken then some failed else (if elem id accepted then some pending else none))

module _ (W : IWorker) (workers : ℕ → W.Worker) (worker_size : ℕ) where
  -- A manager after any of the script's calls and of the results of its workers. A worker answers an
  -- accepted job once at most; fewer than 2^64 jobs are dispatched.
  pub data Reach : Manager W → List ℕ → List ℕ → List ℕ → Type 0 where
    begin : Reach (init W workers worker_size) [] [] []
    dispatched :
        {m m' : Manager W} {accepted finished broken : List ℕ} (id value callback : ℕ)
        → Reach m accepted finished broken
        → m.next_job_id + 1 < size_mod
        → js_dispatch W true value callback m ≡ (job_id id, m')
        → Reach m' (id ∷ accepted) finished broken
    rejected :
        {m m' : Manager W} {accepted finished broken : List ℕ} (is_function : Bool)
        (value callback : ℕ)
        → Reach m accepted finished broken
        → ((js_dispatch W is_function value callback m ≡ (no_workers, m'))
            ⊎ (js_dispatch W is_function value callback m ≡ (not_a_function, m')))
        → Reach m' accepted finished broken
    closed :
        {m : Manager W} {accepted finished broken : List ℕ}
        → Reach m accepted finished broken
        → Reach (js_close W m) accepted finished broken
    refused :
        {m m' : Manager W} {accepted finished broken : List ℕ} (i value callback : ℕ)
        → Reach m accepted finished broken
        → m.next_job_id + 1 < size_mod
        → js_dispatch W true value callback m ≡ (queue_full i, m')
        → Reach m' accepted finished broken
    answered :
        {m : Manager W} {accepted finished broken : List ℕ} (r : FibResult)
        → Reach m accepted finished broken
        → elem r.job_id accepted ≡ true
        → elem r.job_id finished ≡ false
        → elem r.job_id broken ≡ false
        → r.error ≡ 0
        → Reach (on_result W r m) accepted (r.job_id ∷ finished) broken
    broke :
        {m : Manager W} {accepted finished broken : List ℕ} (r : FibResult)
        → Reach m accepted finished broken
        → elem r.job_id accepted ≡ true
        → elem r.job_id finished ≡ false
        → elem r.job_id broken ≡ false
        → r.error ≢ 0
        → Reach (on_result W r m) accepted finished (r.job_id ∷ broken)

  pub record Inv (m : Manager W) (accepted finished broken : List ℕ) : Type 0 where
    pub told : (id : ℕ) → m.job_status id ≡ status accepted finished broken id
    pub accepted_known : All (λ j. j < m.next_job_id) accepted
    pub finished_known : All (λ j. j < m.next_job_id) finished
    pub broken_known : All (λ j. j < m.next_job_id) broken

  abbrev job_of : Manager W → ℕ → FibJob
  job_of m value = record { job_id = m.next_job_id; value = value }

  abbrev picked : Manager W → W.Worker
  picked m = m.workers (m.next_worker_idx % m.worker_size)

  abbrev stored : Manager W → ℕ → ℕ → Manager W
  stored m value callback = record m {
    next_job_id = add_size m.next_job_id 1;
    next_worker_idx = add_size m.next_worker_idx 1;
    workers =
        update m.workers (m.next_worker_idx % m.worker_size)
          (W.enqueue (job_of m value) callback (picked m)).1;
  }

  All-later : (n k : ℕ) (js : List ℕ) → n < k → All (λ j. j < n) js → All (λ j. j < k) js
  All-later n k [] h a = tt
  All-later n k (j ∷ js) h (b, a) = (omega arith, All-later n k js h a)

  -- A call of `js_dispatch`, by its result.
  dispatched_lem :
      (m m' : Manager W) (id value callback : ℕ)
      → js_dispatch W true value callback m ≡ (job_id id, m')
      → (m.next_job_id ≡ id)
        × (m'.next_job_id ≡ add_size m.next_job_id 1)
        × (m'.job_status ≡ update m.job_status id (some pending))
  unfolding js_dispatch pick_worker
  dispatched_lem m m' id value callback e = elim (Bool-cases (m.worker_size == 0)) [
    | inl bare ↦
        let r : js_dispatch W true value callback m ≡ (no_workers, m) =
          rw (js_dispatch, bare) refl in
        cc
    | inr some_left ↦ elim (Bool-cases (W.enqueue (job_of m value) callback (picked m)).0) [
      | inl taken ↦
          let next = stored m value callback in
          let known = record next {
            job_status = update m.job_status m.next_job_id (some pending);
          } in
          let r : js_dispatch W true value callback m ≡ (job_id m.next_job_id, known) =
            rw (js_dispatch, some_left, taken) refl in
          let same : known ≡ m' = cc in
          let name : m.next_job_id ≡ id = cc in rw (← same, ← name) (refl, refl, refl)
      | inr full ↦
          let r : js_dispatch W true value callback m
              ≡ (queue_full (m.next_worker_idx % m.worker_size), stored m value callback) =
            rw (js_dispatch, some_left, full) refl in
          cc
    ]
  ]

  refused_lem :
      (m m' : Manager W) (i value callback : ℕ)
      → js_dispatch W true value callback m ≡ (queue_full i, m')
      → (m'.next_job_id ≡ add_size m.next_job_id 1) × (m'.job_status ≡ m.job_status)
  unfolding js_dispatch pick_worker
  refused_lem m m' i value callback e = elim (Bool-cases (m.worker_size == 0)) [
    | inl bare ↦
        let r : js_dispatch W true value callback m ≡ (no_workers, m) =
          rw (js_dispatch, bare) refl in
        cc
    | inr some_left ↦ elim (Bool-cases (W.enqueue (job_of m value) callback (picked m)).0) [
      | inl taken ↦
          let next = stored m value callback in
          let known = record next {
            job_status = update m.job_status m.next_job_id (some pending);
          } in
          let r : js_dispatch W true value callback m ≡ (job_id m.next_job_id, known) =
            rw (js_dispatch, some_left, taken) refl in
          cc
      | inr full ↦
          let r : js_dispatch W true value callback m
              ≡ (queue_full (m.next_worker_idx % m.worker_size), stored m value callback) =
            rw (js_dispatch, some_left, full) refl in
          let same : stored m value callback ≡ m' = cc in rw (← same) (refl, refl)
    ]
  ]

  -- A call that reaches no worker changes nothing.
  rejected_lem :
      (is_function : Bool) (m m' : Manager W) (value callback : ℕ)
      → ((js_dispatch W is_function value callback m ≡ (no_workers, m'))
          ⊎ (js_dispatch W is_function value callback m ≡ (not_a_function, m')))
      → m ≡ m'
  unfolding js_dispatch pick_worker
  rejected_lem false m m' value callback (inl e) = cc
  rejected_lem false m m' value callback (inr e) = cc
  rejected_lem true m m' value callback (inl e) = elim (Bool-cases (m.worker_size == 0)) [
    | inl bare ↦
        let r : js_dispatch W true value callback m ≡ (no_workers, m) =
          rw (js_dispatch, bare) refl in
        cc
    | inr some_left ↦ elim (Bool-cases (W.enqueue (job_of m value) callback (picked m)).0) [
      | inl taken ↦
          let r : (js_dispatch W true value callback m).0 ≡ job_id m.next_job_id =
            rw (js_dispatch, some_left, taken) refl in
          cc
      | inr full ↦
          let r : (js_dispatch W true value callback m).0
              ≡ queue_full (m.next_worker_idx % m.worker_size) =
            rw (js_dispatch, some_left, full) refl in
          cc
    ]
  ]
  rejected_lem true m m' value callback (inr e) = elim (Bool-cases (m.worker_size == 0)) [
    | inl bare ↦
        let r : js_dispatch W true value callback m ≡ (no_workers, m) =
          rw (js_dispatch, bare) refl in
        cc
    | inr some_left ↦ elim (Bool-cases (W.enqueue (job_of m value) callback (picked m)).0) [
      | inl taken ↦
          let r : (js_dispatch W true value callback m).0 ≡ job_id m.next_job_id =
            rw (js_dispatch, some_left, taken) refl in
          cc
      | inr full ↦
          let r : (js_dispatch W true value callback m).0
              ≡ queue_full (m.next_worker_idx % m.worker_size) =
            rw (js_dispatch, some_left, full) refl in
          cc
    ]
  ]

  Reach-Inv :
      {m : Manager W} {accepted finished broken : List ℕ}
      → Reach m accepted finished broken
      → Inv m accepted finished broken
  unfolding init on_result elem js_close
  Reach-Inv begin = ground arith
  Reach-Inv (dispatched {m} {m'} {accepted} {finished} {broken} id value callback r small e) =
      let v = Reach-Inv r in
      let (name, next, told) = dispatched_lem m m' id value callback e in
      let counter : m'.next_job_id ≡ m.next_job_id + 1 = next ∙ omega arith in
      let up : m.next_job_id < m'.next_job_id = omega arith in
      record {
        told = λ j. rw told (
            ground (
              arith,
              v.told j,
              elem-lt m.next_job_id j finished v.finished_known,
              elem-lt m.next_job_id j broken v.broken_known,
            ));
        accepted_known =
            (omega arith, All-later m.next_job_id m'.next_job_id accepted up v.accepted_known);
        finished_known = All-later m.next_job_id m'.next_job_id finished up v.finished_known;
        broken_known = All-later m.next_job_id m'.next_job_id broken up v.broken_known;
      }
  Reach-Inv (rejected {m} {m'} {accepted} {finished} {broken} is_function value callback r e) =
      subst (λ n. Inv n accepted finished broken) (rejected_lem is_function m m' value callback e)
        (Reach-Inv r)
  Reach-Inv (closed {m} r) =
      let v = Reach-Inv r in
      record {
        told = v.told;
        accepted_known = v.accepted_known;
        finished_known = v.finished_known;
        broken_known = v.broken_known;
      }
  Reach-Inv (refused {m} {m'} {accepted} {finished} {broken} i value callback r small e) =
      let v = Reach-Inv r in
      let (next, told) = refused_lem m m' i value callback e in
      let counter : m'.next_job_id ≡ m.next_job_id + 1 = next ∙ omega arith in
      let up : m.next_job_id < m'.next_job_id = omega arith in
      record {
        told = λ j. rw told (v.told j);
        accepted_known = All-later m.next_job_id m'.next_job_id accepted up v.accepted_known;
        finished_known = All-later m.next_job_id m'.next_job_id finished up v.finished_known;
        broken_known = All-later m.next_job_id m'.next_job_id broken up v.broken_known;
      }
  Reach-Inv (answered {m} {accepted} {finished} {broken} r s a f b z) =
      let v = Reach-Inv s in
      record {
        told = λ id. ground (arith, v.told id);
        accepted_known = v.accepted_known;
        finished_known =
            (elem-lt m.next_job_id r.job_id accepted v.accepted_known a, v.finished_known);
        broken_known = v.broken_known;
      }
  Reach-Inv (broke {m} {accepted} {finished} {broken} r s a f b z) =
      let v = Reach-Inv s in
      record {
        told = λ id. ground (arith, v.told id);
        accepted_known = v.accepted_known;
        finished_known = v.finished_known;
        broken_known = (elem-lt m.next_job_id r.job_id accepted v.accepted_known a, v.broken_known);
      }

  -- The progress of a job is told exactly by its manager, after any calls of `js_dispatch`, fewer than
  -- 2^64, and of `js_close`, and after results for accepted jobs, one for each at most: "done" or "error"
  -- once its worker has answered so, "pending" from the acceptance on until then, and for ever if it is
  -- never answered, and "unknown" for any other number, also one that was refused.
  pub progress_is_exact :
      {m : Manager W} {accepted finished broken : List ℕ} (id : ℕ)
      → Reach m accepted finished broken
      → js_get_progress W id m ≡ status accepted finished broken id
  unfolding js_get_progress
  progress_is_exact id r = (Reach-Inv r).told id

  -- The id of a job that is accepted is new: no job accepted before has it, so no result of another
  -- job changes its progress.
  pub job_ids_are_fresh :
      {m : Manager W} {accepted finished broken : List ℕ} (id value callback : ℕ) (m' : Manager W)
      → Reach m accepted finished broken
      → js_dispatch W true value callback m ≡ (job_id id, m')
      → elem id accepted ≡ false
  job_ids_are_fresh {m} {accepted} id value callback m' r e =
      let (name, _, _) = dispatched_lem m m' id value callback e in
      ground (arith, elem-lt m.next_job_id id accepted (Reach-Inv r).accepted_known)
