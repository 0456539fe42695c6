-- ===== src/WorkQueue/Threads.antt =====
-- `enqueue`, `dequeue` and `stop` of include/work_queue.h run by two threads: the calls of the ring,
-- of the semaphore and of the flag are the steps. The consumer calls `dequeue` until it returns
-- `false`, as the workers do; the producer calls `enqueue` and `stop`.
pub mod Inv
pub mod Safety
use capy_js.Prelude.{ℕ, zero, suc, ◌+◌, ◌≡◌, Bool, true, false, none, some, List, [], ◌∷◌, ◌++◌}
use capy_js.Spsc
use capy_js.Spsc.{Spsc}
use capy_js.Semaphore.{Semaphore}
use capy_js.WorkQueue.{WorkQueue, init}

-- Between the push and the post of `enqueue`; between the store and the post of `stop`.
pub data Producer : Type 0 where
  outside pushed stopping : Producer

-- In `dequeue`: asleep or about to sleep, woken, past the test of the flag; or done with its loop.
pub data Consumer : Type 0 where
  outside woken running exited : Consumer

module _ (S : Semaphore) (A : Type 0) where
  -- `halts` counts the calls of `stop` that have returned, `accepted` and `delivered` the items.
  pub record World : Type 0 where
    pub work : WorkQueue S A
    pub producer : Producer
    pub consumer : Consumer
    pub halts : ℕ
    pub accepted : List A
    pub delivered : List A

module _ (S : Semaphore) {A : Type 0} where
  open S use {sem_post, sem_wait}

  abbrev pub start : (ℕ → A) → World S A
  start cells = record {
    work = init S cells;
    producer = Producer.outside;
    consumer = Consumer.outside;
    halts = 0;
    accepted = [];
    delivered = [];
  }

  pub data Step (N : ℕ) (s : World S A) : World S A → Type 0 where
    enqueue_push :
        (item : A) (q : Spsc A)
        → s.producer ≡ Producer.outside
        → Spsc.push N item s.work.queue ≡ (true, q)
        → Step N s (record s {
          work = record (s.work) { queue = q };
          producer = Producer.pushed;
          accepted = s.accepted ++ item ∷ [];
        })
    enqueue_full :
        (item : A) (q : Spsc A)
        → s.producer ≡ Producer.outside
        → Spsc.push N item s.work.queue ≡ (false, q)
        → Step N s (record s { work = record (s.work) { queue = q } })
    enqueue_post :
        s.producer ≡ Producer.pushed
        → Step N s (record s {
          work = record (s.work) { sem = sem_post s.work.sem };
          producer = Producer.outside;
        })
    stop_store :
        s.producer ≡ Producer.outside
        → Step N s
            (record s { work = record (s.work) { stopped = true }; producer = Producer.stopping })
    stop_post :
        s.producer ≡ Producer.stopping
        → Step N s (record s {
          work = record (s.work) { sem = sem_post s.work.sem };
          producer = Producer.outside;
          halts = suc s.halts;
        })
    dequeue_wait :
        (sem : S.Sem)
        → s.consumer ≡ Consumer.outside
        → sem_wait s.work.sem ≡ some sem
        → Step N s (record s { work = record (s.work) { sem = sem }; consumer = Consumer.woken })
    dequeue_stopped :
        s.consumer ≡ Consumer.woken
        → s.work.stopped ≡ true
        → Step N s (record s { consumer = Consumer.exited })
    dequeue_go :
        s.consumer ≡ Consumer.woken
        → s.work.stopped ≡ false
        → Step N s (record s { consumer = Consumer.running })
    dequeue_pop :
        (out : A) (q : Spsc A)
        → s.consumer ≡ Consumer.running
        → Spsc.pop N s.work.queue ≡ (some out, q)
        → Step N s (record s {
          work = record (s.work) { queue = q };
          consumer = Consumer.outside;
          delivered = s.delivered ++ out ∷ [];
        })
    dequeue_fail :
        (q : Spsc A)
        → s.consumer ≡ Consumer.running
        → Spsc.pop N s.work.queue ≡ (none, q)
        → Step N s (record s { work = record (s.work) { queue = q }; consumer = Consumer.exited })

  pub data Steps (N : ℕ) (s : World S A) : World S A → Type 0 where
    here : Steps N s s
    later : {t u : World S A} → Steps N s t → Step N t u → Steps N s u
