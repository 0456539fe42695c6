-- ===== src/InfManager.antt =====
-- The manager of the inference workers: src/inference_engine.cc. A model is its name; what llama makes
-- of a file is the caller's choice.
use capy_js.Prelude.{
  ℕ, zero, suc, ◌+◌, ◌-◌, ◌/◌, ◌%◌, Bool, true, false, not, Option, none, some, List, [], ◌∷◌, take,
  ◌==◌, ltb, if◌then◌else◌, update, add_size, ◌||◌,
}
use capy_js.Prelude.Text.{same_text}
use capy_js.Workers.{stop_all}
use capy_js.InfWorker.{InfJob, InfResult}
pub mod Close
pub mod Cores
pub mod Progress
mod Tests

pub data JobStatus : Type 0 where
  pending : JobStatus
  done : JobStatus
  failed : JobStatus

pub data Dispatched : Type 0 where
  not_a_function : Dispatched
  no_workers : Dispatched
  unknown_model : Dispatched
  queue_full : ℕ → Dispatched
  job_id : ℕ → Dispatched

-- The packet of a job: `none` for a string that the script engine does not give.
pub record Packet : Type 0 where
  pub model_class : Option (List ℕ)
  pub session_id : Option (List ℕ)
  pub client_id : Option (List ℕ)
  pub prompt : Option (List ℕ)

pub record IWorker : Type 1 where
  pub Worker : Type 0
  pub enqueue : InfJob → ℕ → Worker → Bool × Worker
  pub stop : Worker → Worker

-- The arguments that a worker is made with.
pub record Spawned : Type 0 where
  pub worker_id : ℕ
  pub core_start : ℕ
  pub core_count : ℕ
  pub n_ctx : ℕ
  pub n_batch : ℕ

-- The loop, `n` rounds from `i` on.
unfoldable pub spawn : ℕ → ℕ → ℕ → ℕ → ℕ → ℕ → List Spawned
spawn zero i core_cursor cores_each n_ctx n_batch = []
spawn (suc n) i core_cursor cores_each n_ctx n_batch =
    record {
      worker_id = i;
      core_start = core_cursor;
      core_count = cores_each;
      n_ctx = n_ctx;
      n_batch = n_batch;
    }
    ∷ spawn n (i + 1) (core_cursor + cores_each) cores_each n_ctx n_batch

-- `processors` is what `sysconf` says; `none` is the division by a count of 0.
unfoldable pub spawn_workers : ℕ → ℕ → ℕ → ℕ → Option (List Spawned)
spawn_workers processors count n_ctx n_batch =
    let batch = if n_batch == 0 then n_ctx else n_batch in
    let total_cores = if ltb (processors - 1) 1 then 1 else processors - 1 in
    let cores_each = total_cores / count in
    if count == 0
    then none
    else some (spawn count 0 1 (if ltb cores_each 1 then 1 else cores_each) n_ctx batch)

-- `snprintf` into an array of `size` bytes, of a string that may be null.
unfoldable pub field : ℕ → Option (List ℕ) → List ℕ
field size none = []
field size (some text) = take (size - 1) text

unfoldable pub has_model : List ℕ → List (List ℕ) → Bool
has_model model_class [] = false
has_model model_class (m ∷ ms) = same_text model_class m || has_model model_class ms

module _ (W : IWorker) where
  pub record Manager : Type 0 where
    pub models : List (List ℕ)
    pub workers : ℕ → W.Worker
    pub worker_size : ℕ
    pub job_status : ℕ → Option JobStatus
    pub next_job_id : ℕ
    pub next_worker_idx : ℕ

  unfoldable pub add_model : List ℕ → Bool → Manager → Bool × Manager
  add_model model_class loaded m =
      if loaded then (true, record m { models = model_class ∷ m.models }) else (false, m)

  -- `!cls || !get_model(cls)`
  unfoldable pub lacks_model : Option (List ℕ) → Manager → Bool
  lacks_model none m = true
  lacks_model (some cls) m = not (has_model cls m.models)

  unfoldable pub pick_worker : Manager → ℕ × Manager
  pick_worker m = (
    m.next_worker_idx % m.worker_size,
    record m { next_worker_idx = add_size m.next_worker_idx 1 },
  )

  unfoldable pub job_of : ℕ → Packet → InfJob
  job_of id packet = record {
    job_id = id;
    model_class = field 32 packet.model_class;
    session_id = field 128 packet.session_id;
    client_id = field 64 packet.client_id;
    prompt = field 2048 packet.prompt;
  }

  unfoldable pub hand_over : Packet → ℕ → Manager → Dispatched × Manager
  hand_over packet callback m =
      let id = m.next_job_id in
      let (i, m') = pick_worker (record m { next_job_id = add_size id 1 }) in
      let (taken, worker) = W.enqueue (job_of id packet) callback (m'.workers i) in
      let stored = update m'.workers i worker in
      if taken
      then (
        job_id id,
        record m' { workers = stored; job_status = update m'.job_status id (some pending) },
      )
      else (queue_full i, record m' { workers = stored })

  unfoldable pub js_dispatch : Bool → Packet → ℕ → Manager → Dispatched × Manager
  js_dispatch is_function packet callback m =
      if is_function
      then (if m.worker_size == 0
          then (no_workers, m)
          else (if lacks_model packet.model_class m
              then (unknown_model, m)
              else hand_over packet callback m))
      else (not_a_function, m)

  -- The status that a result leaves, also one with more tokens to come, and whether its callback is
  -- freed.
  abbrev pub status_of : InfResult → JobStatus
  status_of r = if r.error == 0 then done else failed

  unfoldable pub on_result : InfResult → Manager → Bool × Manager
  on_result r m =
      (r.is_done, record m { job_status = update m.job_status r.job_id (some (status_of r)) })

  -- `none` is the string "unknown".
  unfoldable pub js_get_progress : ℕ → Manager → Option JobStatus
  js_get_progress id m = m.job_status id

  unfoldable pub js_close : Manager → Manager
  js_close m = record m {
    workers = stop_all W.stop m.worker_size m.workers;
    worker_size = 0;
    models = [];
  }
