-- ===== src/WorkQueue/Threads/Safety.antt =====
-- What a worker's loop and its `stop` rely on, in every interleaving of the two threads.
use capy_js.Prelude.{ℕ, zero, suc, ◌-◌, ◌<◌, ◌≡◌, ◌≢◌, refl, arith}
use capy_js.Prelude.{true, false, none, some, ◌++◌, length, inl, inr}
use capy_js.Spsc
use capy_js.Spsc.{Spsc}
use capy_js.Spsc.Refine.{contents}
use capy_js.Spsc.Cases.{pop_cases, pop-none}
use capy_js.Semaphore.{Semaphore}
use capy_js.WorkQueue.Threads.{Consumer, running, exited, World, start, Steps}
use capy_js.WorkQueue.Threads.Inv.{Inv, start-Inv, Steps-Inv, pending}

module _ (S : Semaphore) {A : Type 0} {N : ℕ} (cells : ℕ → A) (size : Spsc.IsSize N) where
  open S use {units, sem_wait, sem_wait_sleeps, sem_wait_takes}

  reached : {t : World S A} → Steps S N (start S cells) t → Inv S N t
  reached r = Steps-Inv S (start-Inv S cells size) r

  -- No item is lost or handed out twice: what was accepted is what was delivered followed by what is
  -- left in the ring, also after `stop`.
  pub no_item_lost :
      {t : World S A}
      → Steps S N (start S cells) t
      → t.accepted ≡ t.delivered ++ contents N t.work.queue
  no_item_lost r = (reached r).kept

  -- The consumer's loop ends only after `stop`.
  pub loop_ends_after_stop :
      {t : World S A} → Steps S N (start S cells) t → t.consumer ≡ exited → t.work.stopped ≡ true
  loop_ends_after_stop r = (reached r).loyal

  -- A consumer past the test of the flag finds an item in the ring, so that `dequeue` returns `false`
  -- only for the flag.
  pub consumer_finds_item :
      {t : World S A}
      → Steps S N (start S cells) t
      → t.consumer ≡ running
      → (x : A) × (q : Spsc A) × (Spsc.pop N t.work.queue ≡ (some x, q))
  consumer_finds_item {t} r e = elim (pop_cases (reached r).valid) [
    | inl (bare, p) ↦ absurd (ground (arith, reached r, pop-none t.work.queue (reached r).valid p))
    | inr (x, q, p, _, _) ↦ (x, q, p)
  ]

  -- Once `stop` has returned, a consumer that has not left its loop is not asleep, so `stop` can join
  -- its thread.
  pub stop_wakes_consumer :
      {t : World S A}
      → Steps S N (start S cells) t
      → 0 < t.halts
      → t.consumer ≡ Consumer.outside
      → sem_wait t.work.sem ≢ none
  stop_wakes_consumer {t} r halted out e =
      let v = reached r in
      let (s', wakes, _) = sem_wait_takes t.work.sem (units t.work.sem - 1) (ground arith) in cc

  -- Before `stop`, the consumer sleeps only when every item of the ring is one whose `enqueue` has
  -- still to post its unit; with no `enqueue` on the way the ring is empty.
  pub sleeps_when_empty :
      {t : World S A}
      → Steps S N (start S cells) t
      → t.work.stopped ≡ false
      → t.consumer ≡ Consumer.outside
      → sem_wait t.work.sem ≡ none
      → length (contents N t.work.queue) ≡ pending t.producer
  sleeps_when_empty {t} r calm out e = ground (arith, reached r, asleep)
    where
      asleep : units t.work.sem ≡ 0
      asleep = go (units t.work.sem) refl
        where
          go : (n : ℕ) → units t.work.sem ≡ n → units t.work.sem ≡ 0
          go zero h = h
          go (suc n) h = let (s', wakes, _) = sem_wait_takes t.work.sem n h in cc
