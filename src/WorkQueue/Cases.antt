-- ===== src/WorkQueue/Cases.antt =====
-- The calls of `enqueue` and `dequeue`, by their results.
use capy_js.Prelude.{ℕ, ◌≡◌, refl, sym, ◌∙◌, ◌⊎◌, inl, inr, Option-cases, Bool-cases}
use capy_js.Prelude.{true, false, none, some, [], ◌∷◌, ◌++◌}
use capy_js.Spsc
use capy_js.Spsc.Inv.{IsValid}
use capy_js.Spsc.Refine.{contents}
use capy_js.Spsc.Cases.{push_cases, pop_given, pop-none}
use capy_js.Semaphore.{Semaphore}
use capy_js.WorkQueue.{WorkQueue, Dequeued, asleep, returned, enqueue, dequeue}

module _ (S : Semaphore) {A : Type 0} (N : ℕ) where
  pub enqueue_accepted :
      (w : WorkQueue S A) (x : A) (w' : WorkQueue S A)
      → IsValid N w.queue
      → enqueue S N x w ≡ (true, w')
      → (contents N w'.queue ≡ contents N w.queue ++ x ∷ [])
        × IsValid N w'.queue
        × (w'.stopped ≡ w.stopped)
  unfolding enqueue
  enqueue_accepted w x w' v e = elim (push_cases x v) [
    | inl (p, _) ↦ let r : enqueue S N x w ≡ (false, w) = rw (enqueue, p) refl in cc
    | inr (q, p, _, items, v') ↦
        let r : enqueue S N x w ≡ (true, record w { queue = q; sem = S.sem_post w.sem }) =
          rw (enqueue, p) refl in
        let same : record w { queue = q; sem = S.sem_post w.sem } ≡ w' = cc in
        rw (← same) (items, v', refl)
  ]

  pub enqueue_refused :
      (w : WorkQueue S A) (x : A) (w' : WorkQueue S A)
      → IsValid N w.queue
      → enqueue S N x w ≡ (false, w')
      → w' ≡ w
  unfolding enqueue
  enqueue_refused w x w' v e = elim (push_cases x v) [
    | inl (p, _) ↦ let r : enqueue S N x w ≡ (false, w) = rw (enqueue, p) refl in cc
    | inr (q, p, _, items, v') ↦
        let r : enqueue S N x w ≡ (true, record w { queue = q; sem = S.sem_post w.sem }) =
          rw (enqueue, p) refl in
        cc
  ]

  -- A call of `dequeue` that returns, by what it has done.
  returns :
      (w : WorkQueue S A) (out : Dequeued S A) (w' : WorkQueue S A)
      → dequeue S N w ≡ (out, w')
      → (out ≡ asleep)
        ⊎ (((out ≡ returned none) × (w.stopped ≡ true) × (w'.queue ≡ w.queue) × (w'.stopped ≡ true))
            ⊎ ((out ≡ returned (Spsc.pop N w.queue).0)
                × (w.stopped ≡ false)
                × (w'.queue ≡ (Spsc.pop N w.queue).1)
                × (w'.stopped ≡ false)))
  unfolding dequeue
  returns w out w' e = elim (Option-cases (S.sem_wait w.sem)) [
    | inl sleeps ↦ let r : dequeue S N w ≡ (asleep, w) = rw (dequeue, sleeps) refl in inl cc
    | inr (s, wakes) ↦ elim (Bool-cases w.stopped) [
      | inl halted ↦
          let r : dequeue S N w ≡ (returned none, record w { sem = s }) =
            rw (dequeue, wakes, halted) refl in
          let same : record w { sem = s } ≡ w' = cc in
          inr (inl (cc, halted, rw (← same) refl, rw (← same) halted))
      | inr runs ↦
          let popped : WorkQueue S A = record w { queue = (Spsc.pop N w.queue).1; sem = s } in
          let r : dequeue S N w ≡ (returned (Spsc.pop N w.queue).0, popped) =
            rw (dequeue, wakes, runs) refl in
          let same : popped ≡ w' = cc in inr (inr (cc, runs, rw (← same) refl, rw (← same) runs))
    ]
  ]

  pub dequeue_given :
      (w : WorkQueue S A) (x : A) (w' : WorkQueue S A)
      → IsValid N w.queue
      → dequeue S N w ≡ (returned (some x), w')
      → (contents N w.queue ≡ x ∷ contents N w'.queue)
        × IsValid N w'.queue
        × (w'.stopped ≡ w.stopped)
  dequeue_given w x w' v e = elim (returns w (returned (some x)) w' e) [
    | inl r ↦ cc
    | inr (inl (r, _, _, _)) ↦ cc
    | inr (inr (r, runs, q, runs')) ↦
        let given : Spsc.pop N w.queue ≡ (some x, w'.queue) = cc in
        let (items, v') = pop_given x w'.queue v given in (items, v', runs' ∙ sym runs)
  ]

  -- Without an item the queue is left alone.
  pub dequeue-none :
      (w : WorkQueue S A) (w' : WorkQueue S A)
      → IsValid N w.queue
      → dequeue S N w ≡ (returned none, w')
      → (w'.queue ≡ w.queue) × (w'.stopped ≡ w.stopped)
  dequeue-none w w' v e = elim (returns w (returned none) w' e) [
    | inl r ↦ cc
    | inr (inl (r, halted, q, halted')) ↦ (q, halted' ∙ sym halted)
    | inr (inr (r, runs, q, runs')) ↦
        let bare : Spsc.pop N w.queue ≡ (none, w'.queue) = cc in
        ((pop-none w'.queue v bare).1, runs' ∙ sym runs)
  ]
