-- ===== src/WorkQueue/Drain.antt =====
-- One call at a time: `enqueue` and `dequeue` keep the semaphore in step with the ring, and `drain`
-- gives back everything that is left.
use capy_js.Prelude.{ℕ, zero, suc, ◌-◌, ◌<◌, ◌≡◌, refl, arith, sym, ap, ◌∙◌}
use capy_js.Prelude.{false, some, [], ◌∷◌, length, length-append}
use capy_js.Prelude.{inl, inr, ◌⊎◌}
use capy_js.Fifo
use capy_js.Spsc.{Spsc}
use capy_js.Spsc.Inv.{IsValid, count-lt}
use capy_js.Spsc.Refine.{contents, length-contents}
use capy_js.Spsc.Cases.{push_cases, pop_cases}
use capy_js.WorkQueue.{WorkQueue, asleep, returned, enqueue, dequeue, drain_loop, drain}
use capy_js.Semaphore.{Semaphore}

module _ {A : Type 0} {N : ℕ} where
  -- With more rounds than items the loop of `drain` ends by its test, and hands out every item.
  pub drain_loop_lem :
      (fuel : ℕ) (q : Spsc A)
      → IsValid N q
      → length (contents N q) < fuel
      → let (items, q') = drain_loop N fuel q in
        (items ≡ contents N q) × (contents N q' ≡ []) × IsValid N q'
  unfolding drain_loop
  drain_loop_lem zero q v h = absurd (omega arith)
  drain_loop_lem (suc fuel) q v h = elim (pop_cases v) [
    | inl (bare, e) ↦
        let ended : drain_loop N (suc fuel) q ≡ ([], q) = ground arith in
        rw ended (sym bare, bare, v)
    | inr (x, q', e, items, v') ↦
        let (same, done, v'') = drain_loop_lem fuel q' v' (omega (arith, ap length items)) in
        let rest = drain_loop N fuel q' in
        let more : drain_loop N (suc fuel) q ≡ (x ∷ rest.0, rest.1) = ground arith in
        rw (more, items) (ap (◌∷◌ x) same, done, v'')
  ]

module _ (S : Semaphore) {A : Type 0} (N : ℕ) where
  open S use {units, units-sem_post, sem_wait_sleeps, sem_wait_takes}

  -- Between two calls: a valid ring and, until `stop`, a unit of the semaphore for each item.
  pub record IsBalanced (w : WorkQueue S A) : Type 0 where
    pub valid : IsValid N w.queue
    pub balance : w.stopped ≡ false → units w.sem ≡ length (contents N w.queue)

  -- `drain` hands every item to its function, oldest first, and leaves the ring empty.
  pub drain_takes_all :
      (w : WorkQueue S A)
      → IsValid N w.queue
      → let (items, w') = drain S N w in
        (items ≡ contents N w.queue) × (contents N w'.queue ≡ []) × IsValid N w'.queue
  unfolding drain
  drain_takes_all w v = drain_loop_lem N w.queue v (rw (length-contents N w.queue) (count-lt v))

  -- `enqueue` accepts exactly when the ring has room, and then adds the item at the end.
  pub enqueue_lem :
      {w : WorkQueue S A} (x : A)
      → IsBalanced w
      → let (accepted, w') = enqueue S N x w in
        ((accepted, contents N w'.queue) ≡ Fifo.push (N - 1) x (contents N w.queue)) × IsBalanced w'
  unfolding enqueue
  enqueue_lem {w} x b = elim (push_cases x b.valid) [
    | inl (e, full) ↦
        rw (e, enqueue) (unfold Fifo.push in ground (arith, length-contents N w.queue), b)
    | inr (q', e, room, items, v') ↦
        rw (e, enqueue, items)
          (
            unfold Fifo.push in ground (arith, length-contents N w.queue),
            record {
              valid = v';
              balance = λ r.
                  units-sem_post w.sem
                  ∙ omega (
                    arith,
                    b.balance r,
                    ap length items,
                    length-append (contents N w.queue) (x ∷ []),
                  );
            },
          )
  ]

  -- Before `stop`, `dequeue` sleeps exactly when the ring is empty, and otherwise returns its oldest
  -- item: it never returns `false`.
  pub dequeue_before_stop :
      {w : WorkQueue S A}
      → IsBalanced w
      → w.stopped ≡ false
      → let (out, w') = dequeue S N w in
        (((contents N w.queue ≡ []) × (out ≡ asleep))
          ⊎ ((x : A) × (contents N w.queue ≡ x ∷ contents N w'.queue) × (out ≡ returned (some x))))
        × IsBalanced w'
  unfolding dequeue
  dequeue_before_stop {w} b running = elim (pop_cases b.valid) [
    | inl (bare, e) ↦
        rw (sem_wait_sleeps w.sem (b.balance running ∙ ap length bare), dequeue)
          (inl (bare, refl), b)
    | inr (x, q', e, items, v') ↦
        let (s', wakes, left) =
          sem_wait_takes w.sem (length (contents N q')) (b.balance running ∙ ap length items) in
        rw (wakes, dequeue, running, e)
          (inr (x, items, refl), record { valid = v'; balance = λ _. left })
  ]
