-- ===== src/JsManager/Turn.antt =====
-- One call of `js_dispatch` of src/js_engine.cc, with a function and a string, at turn `k`.
use capy_js.Prelude.{
  Bool-cases, ℕ, ◌+◌, ◌%◌, ◌<◌, ◌≡◌, refl, arith, ◌⊎◌, inl, inr, Bool, true, false, some, List,
  ◌==◌, if◌then◌else◌, add_size, size_mod,
}
use capy_js.JsManager.{IWorker, Manager, pick_worker, hand_over, js_dispatch, job_id, queue_full}

module _ (W : IWorker) where
  pub record At (m : Manager W) (s k : ℕ) : Type 0 where
    pub size : m.worker_size ≡ s
    pub ids : m.next_job_id ≡ k
    pub idx : m.next_worker_idx ≡ k

  -- What the worker of turn `k` does with the job `k`.
  abbrev pub offer : Manager W → ℕ → ℕ → List ℕ → ℕ → Bool × W.Worker
  offer m s k input callback =
      W.enqueue record { job_id = k; input_json = input } callback (m.workers (k % s))

  module _ (m : Manager W) (s k : ℕ) (input : List ℕ) (callback : ℕ) (h : 0 < s)
      (small : k + 1 < size_mod) (a : At m s k) where
    some_left : m.worker_size == 0 ≡ false
    some_left = ground (arith, a.size, h)

    taken : Bool
    taken = (offer m s k input callback).0

    made : (taken ≡ true) ⊎ (taken ≡ false)
    made = Bool-cases taken

    pub answer :
        (js_dispatch W true (some input) callback m).0
        ≡ (if (offer m s k input callback).0 then job_id k else queue_full (k % s))
    unfolding js_dispatch hand_over pick_worker taken
    answer = elim made [
      | inl took ↦ rw (js_dispatch, some_left, hand_over, a.size, a.ids, a.idx, took) refl
      | inr full ↦ rw (js_dispatch, some_left, hand_over, a.size, a.ids, a.idx, full) refl
    ]

    -- The worker whose turn it is has been offered the job.
    pub stored :
        (i : ℕ)
        → (js_dispatch W true (some input) callback m).1.workers i
          ≡ (if k % s == i then (offer m s k input callback).1 else m.workers i)
    unfolding js_dispatch hand_over pick_worker taken
    stored i = elim made [
      | inl took ↦ rw (js_dispatch, some_left, hand_over, a.size, a.ids, a.idx, took) refl
      | inr full ↦ rw (js_dispatch, some_left, hand_over, a.size, a.ids, a.idx, full) refl
    ]

    counted : add_size k 1 ≡ k + 1
    counted = omega (arith, small)

    pub js_dispatch-At : At (js_dispatch W true (some input) callback m).1 s (k + 1)
    unfolding js_dispatch hand_over pick_worker taken
    js_dispatch-At = elim made [
      | inl took ↦
          rw (js_dispatch, some_left, hand_over, a.size, a.ids, a.idx, took)
            record { size = refl; ids = counted; idx = counted }
      | inr full ↦
          rw (js_dispatch, some_left, hand_over, a.size, a.ids, a.idx, full)
            record { size = refl; ids = counted; idx = counted }
    ]
