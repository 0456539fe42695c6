-- ===== src/JsManager/Burst.antt =====
-- The script workers of src/js_engine.cc over their submission queues (src/workers/js_worker.h): what
-- becomes of a burst of calls.
use capy_js.Prelude.{
  Bool-cases, ℕ, ◌+◌, ◌-◌, ◌*◌, ◌%◌, ◌/◌, ◌<◌, ◌≡◌, refl, arith, inl, inr, true, false, some, List,
  [], ◌∷◌, length, length-append, ◌==◌, ltb, if◌then◌else◌, min, size_mod, ap, subst, subst₂, sym,
  ◌∙◌,
}
use native.Mathlib.Nat.{div-lt_iff_lt-mul, mod-lt}
use capy_js.Spsc
use capy_js.Spsc.{Spsc, IsSize}
use capy_js.Spsc.Inv.{IsValid, init-IsValid}
use capy_js.Spsc.Refine.{contents, length-contents}
use capy_js.Spsc.Cases.{push_cases}
use capy_js.Semaphore.{Semaphore}
use capy_js.WorkQueue
use capy_js.WorkQueue.{WorkQueue}
use capy_js.JsWorker.{JsWorkItem}
use capy_js.JsManager.{IWorker, Manager, init, js_dispatch, job_id, queue_full}
use capy_js.JsManager.Share.{share, share-suc, share-zero}
use capy_js.JsManager.Turn.{At, offer, answer, stored, js_dispatch-At}
use capy_js.JsManager.Turns.{dispatch_all}

-- `JSWorker::enqueue` and `JSWorker::stop` on the submission queue, of `N` cells.
abbrev pub queued : Semaphore → ℕ → IWorker
queued S N = record {
  Worker = WorkQueue S JsWorkItem;
  enqueue = λ job callback w. WorkQueue.enqueue S N record { job = job; callback = callback } w;
  stop = λ w. (WorkQueue.drain S N (WorkQueue.stop S w)).1;
}

module _ (S : Semaphore) (N : ℕ) where
  abbrev W : IWorker
  W = queued S N

  abbrev held : WorkQueue S JsWorkItem → ℕ
  held w = length (contents N w.queue)

  -- A queue after `n` items have been offered to it and none has been taken out.
  record Filled (w : WorkQueue S JsWorkItem) (n : ℕ) : Type 0 where
    valid : IsValid N w.queue
    full : held w ≡ min n (N - 1)

  enqueue-Filled :
      (w : WorkQueue S JsWorkItem) (n : ℕ) (x : JsWorkItem)
      → Filled w n
      → ((WorkQueue.enqueue S N x w).0 ≡ ltb n (N - 1))
        × Filled (WorkQueue.enqueue S N x w).1 (n + 1)
  unfolding WorkQueue.enqueue
  enqueue-Filled w n x f =
      let is = f.full in
      let counted = length-contents N w.queue in
      elim (push_cases x f.valid) [
        | inl (refuses, last) ↦
            let top : ltb n (N - 1) ≡ false = ground (arith, is, counted, last) in
            rw (WorkQueue.enqueue, refuses)
              (rw top refl, record { valid = f.valid; full = omega (arith, is, counted, last) })
        | inr (q', takes, inner, items, valid) ↦
            let room : ltb n (N - 1) ≡ true = ground (arith, is, counted, inner) in
            let more : length (contents N q') ≡ held w + 1 =
              rw items (length-append (contents N w.queue) (x ∷ [])) in
            rw (WorkQueue.enqueue, takes)
              (
                rw room refl,
                record { valid = valid; full = omega (arith, is, counted, inner, more) },
              )
      ]

  share-mine : (s k : ℕ) → share s (k % s) k ≡ k / s
  share-mine s k = ground arith

  record Full (m : Manager W) (s k : ℕ) : Type 0 where
    at : At W m s k
    filled : (i : ℕ) → i < s → Filled (m.workers i) (share s i k)

  module _ (m : Manager W) (s k : ℕ) (input : List ℕ) (callback : ℕ) (h : 0 < s)
      (small : k + 1 < size_mod) (f : Full m s k) where
    mine : Filled (m.workers (k % s)) (k / s)
    mine = subst (Filled (m.workers (k % s))) (share-mine s k) (f.filled (k % s) (mod-lt k h))

    offered :
        ((offer W m s k input callback).0 ≡ ltb (k / s) (N - 1))
        × Filled (offer W m s k input callback).1 (k / s + 1)
    offered = enqueue-Filled (m.workers (k % s)) (k / s) _ mine

    within : ltb (k / s) (N - 1) ≡ ltb k ((N - 1) * s)
    within =
        let scaled = div-lt_iff_lt-mul {k = s} {x = k} {y = N - 1} h in
        elim (Bool-cases (ltb k ((N - 1) * s))) [
          | inl few ↦
              let low : k / s < N - 1 = scaled.1 (ground (arith, few)) in
              rw few (ground (arith, low))
          | inr many ↦ elim (Bool-cases (ltb (k / s) (N - 1))) [
            | inl low ↦
                let few : k < (N - 1) * s = scaled.0 (ground (arith, low)) in
                absurd (ground (arith, few, many))
            | inr high ↦ rw (high, many) refl
          ]
        ]

    answered :
        (js_dispatch W true (some input) callback m).0
        ≡ (if ltb k ((N - 1) * s) then job_id k else queue_full (k % s))
    answered =
        answer W m s k input callback h small f.at
        ∙ ap (λ b. if b then job_id k else queue_full (k % s)) (offered.0 ∙ within)

    js_dispatch-Full : Full (js_dispatch W true (some input) callback m).1 s (k + 1)
    js_dispatch-Full = record {
      at = js_dispatch-At W m s k input callback h small f.at;
      filled = λ i below.
          let made = stored W m s k input callback h small f.at i in
          let one = share-suc s i k below in
          elim (Bool-cases (k % s == i)) [
            | inl turn ↦
                let mine_now : (js_dispatch W true (some input) callback m).1.workers i
                    ≡ (offer W m s k input callback).1 =
                  rw turn at made in
                let same : k % s ≡ i = ground (arith, turn) in
                let was : share s i k ≡ k / s = ap (λ j. share s j k) (sym same) ∙ share-mine s k in
                let more : share s i (k + 1) ≡ 1 + share s i k = rw turn at one in
                subst₂ Filled (sym mine_now) (omega (arith, more, was)) offered.1
            | inr other ↦
                let as_was : (js_dispatch W true (some input) callback m).1.workers i
                    ≡ m.workers i =
                  rw other at made in
                let no_more : share s i (k + 1) ≡ share s i k = rw other at one in
                subst₂ Filled (sym as_was) (sym no_more) (f.filled i below)
          ];
    }

  dispatch_all-Full :
      (calls : List (List ℕ × ℕ)) (m : Manager W) (s k : ℕ)
      → 0 < s
      → k + length calls < size_mod
      → Full m s k
      → Full (dispatch_all W calls m) s (k + length calls)
  dispatch_all-Full [] m s k h small f = subst (Full m s) (omega arith) f
  dispatch_all-Full ((input, callback) ∷ calls) m s k h small f =
      let next = js_dispatch-Full m s k input callback h (omega (arith, small)) f in
      subst (Full (dispatch_all W calls (js_dispatch W true (some input) callback m).1) s)
        (omega arith)
        (dispatch_all-Full calls (js_dispatch W true (some input) callback m).1 s (k + 1) h
          (omega (arith, small)) next)

  init-Full :
      (cells : ℕ → ℕ → JsWorkItem) (s : ℕ)
      → IsSize N
      → Full (init W (λ i. WorkQueue.init S (cells i)) s) s 0
  unfolding init WorkQueue.init Spsc.init
  init-Full cells s size = record {
    at = record { size = refl; ids = refl; idx = refl };
    filled = λ i below. subst (Filled (WorkQueue.init S (cells i))) (sym (share-zero s i)) record {
      valid = init-IsValid (cells i) size;
      full = ground (arith, length-contents N (Spsc.init (cells i)));
    };
  }

  -- While no worker takes a job from its queue, `s` workers with queues of `N` cells take the first
  -- `(N - 1) * s` of the script's calls, whatever they are, each under its own number; and every further
  -- call is refused with the number of the worker whose turn it is. So no place in any of the queues is
  -- left unused before the script is told that one is full.
  pub burst_is_taken_to_capacity :
      (cells : ℕ → ℕ → JsWorkItem) (s : ℕ) (calls : List (List ℕ × ℕ)) (input : List ℕ)
      (callback : ℕ)
      → IsSize N
      → 0 < s
      → length calls + 1 < size_mod
      → (js_dispatch W true
          (some input)
          callback
          (dispatch_all W calls (init W (λ i. WorkQueue.init S (cells i)) s))).0
        ≡ (if ltb (length calls) ((N - 1) * s)
            then job_id (length calls)
            else queue_full (length calls % s))
  burst_is_taken_to_capacity cells s calls input callback size h small =
      let m = dispatch_all W calls (init W (λ i. WorkQueue.init S (cells i)) s) in
      answered m s (length calls) input callback h small (
        subst (Full m s) (omega arith) (
          dispatch_all-Full calls (init W (λ i. WorkQueue.init S (cells i)) s) s 0 h
            (omega (arith, small)) (init-Full cells s size)))
