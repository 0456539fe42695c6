-- ===== src/WorkQueue/Threads/Inv.antt =====
-- How the semaphore, the ring and the two threads account for each other.
use capy_js.Prelude.{ℕ, ◌+◌, ◌≤◌, ◌≡◌, refl, arith, append_assoc}
use capy_js.Prelude.{true, false, [], ◌∷◌, ◌++◌, length, length-append}
use capy_js.Spsc
use capy_js.Spsc.{Spsc}
use capy_js.Spsc.Inv.{IsValid, init-IsValid}
use capy_js.Spsc.Refine.{contents}
use capy_js.Spsc.Cases.{push_accepted, push_refused, pop_given, pop-none}
use capy_js.Semaphore.{Semaphore, sem_wait-units}
use capy_js.WorkQueue.{init}
use capy_js.WorkQueue.Threads.{
  Producer, pushed, stopping, Consumer, woken, running, exited, World, start, Step, enqueue_push,
  enqueue_full, enqueue_post, stop_store, stop_post, dequeue_wait, dequeue_stopped, dequeue_go,
  dequeue_pop, dequeue_fail, Steps, here, later,
}

-- An item pushed whose post is still to come.
abbrev pub pending : Producer → ℕ
pending pushed = 1
pending _ = 0

-- A unit taken whose item is still to be popped.
abbrev pub in_hand : Consumer → ℕ
in_hand woken = 1
in_hand running = 1
in_hand _ = 0

-- An item that the consumer will pop with no further test.
abbrev pub promised : Consumer → ℕ
promised running = 1
promised _ = 0

module _ (S : Semaphore) {A : Type 0} where
  open S use {units, units-sem_init, units-sem_post, sem_wait, sem_wait_sleeps, sem_wait_takes}

  -- Until the consumer leaves its loop, items and calls of `stop` are matched by units.
  abbrev pub Balance : ℕ → World S A → Consumer → Type 0
  Balance N s exited = Unit
  Balance N s c =
      length (contents N s.work.queue) + s.halts ≡ units s.work.sem + pending s.producer + in_hand c

  pub record Inv (N : ℕ) (s : World S A) : Type 0 where
    pub valid : IsValid N s.work.queue
    pub kept : s.accepted ≡ s.delivered ++ contents N s.work.queue
    pub balance : Balance N s s.consumer
    pub room : pending s.producer + promised s.consumer ≤ length (contents N s.work.queue)
    pub calm : s.work.stopped ≡ false → (s.halts ≡ 0) × (s.producer ≡ stopping → ⊥)
    pub loyal : s.consumer ≡ exited → s.work.stopped ≡ true

  pub start-Inv : {N : ℕ} (cells : ℕ → A) → Spsc.IsSize N → Inv N (start S cells)
  unfolding init Spsc.init contents
  start-Inv cells size = record {
    valid = init-IsValid cells size;
    kept = refl;
    balance = omega (arith, units-sem_init 0);
    room = omega arith;
    calm = λ _. (refl, λ e. cc);
    loyal = λ e. cc;
  }

  Step-Inv : {N : ℕ} {s t : World S A} → Step S N s t → Inv N s → Inv N t
  Step-Inv {N} {s} (enqueue_push item q e p) v = ground (
    arith,
    push_accepted item q v.valid p,
    append_assoc s.delivered (contents N s.work.queue) (item ∷ []),
    length-append (contents N s.work.queue) (item ∷ []),
  )
  Step-Inv {N} {s} (enqueue_full item q e p) v = rw (push_refused item q v.valid p) v
  Step-Inv {N} {s} (enqueue_post e) v = ground (arith, units-sem_post s.work.sem)
  Step-Inv {N} {s} (stop_store e) v = ground arith
  Step-Inv {N} {s} (stop_post e) v = ground (arith, units-sem_post s.work.sem)
  Step-Inv {N} {s} (dequeue_wait sem e p) v = ground (arith, sem_wait-units S s.work.sem sem p)
  Step-Inv {N} {s} (dequeue_stopped e p) v = ground arith
  Step-Inv {N} {s} (dequeue_go e p) v = ground arith
  Step-Inv {N} {s} (dequeue_pop out q e p) v =
      ground (arith, pop_given out q v.valid p, append_assoc s.delivered (out ∷ []) (contents N q))
  Step-Inv {N} {s} (dequeue_fail q e p) v = ground (arith, pop-none q v.valid p)

  pub Steps-Inv : {N : ℕ} {s t : World S A} → Inv N s → Steps S N s t → Inv N t
  Steps-Inv v here = v
  Steps-Inv v (later r st) = Step-Inv st (Steps-Inv v r)
