-- ===== src/Spsc/Threads.antt =====
-- `push` and `pop` of include/spsc_queue.h run by two threads, an access to shared memory at a time.
-- Accesses are interleaved; the acquire and release orders of the code are what makes that a fair
-- reading of it, since each cell is handed over by the store of an index.
pub mod Inv
pub mod Safety
pub mod Runs
use capy_js.Prelude.{ℕ, ◌≡◌, ◌≢◌, List, [], ◌∷◌, ◌++◌, update}
use capy_js.Spsc.{Spsc, next, init}

-- Where `push` stands, with its locals `item` and `w`.
pub data Producer (A : Type 0) : Type 0 where
  outside : Producer A
  loaded : A → ℕ → Producer A
  filling : A → ℕ → Producer A
  publishing : A → ℕ → Producer A

-- Where `pop` stands, with its locals `r` and `out`.
pub data Consumer (A : Type 0) : Type 0 where
  outside : Consumer A
  loaded : ℕ → Consumer A
  copying : ℕ → Consumer A
  advancing : ℕ → A → Consumer A

-- `accepted` lists the items of the calls of `push` that have made their store of `write_`, and
-- `delivered` those that `pop` has handed out.
pub record World (A : Type 0) : Type 0 where
  pub ring : Spsc A
  pub producer : Producer A
  pub consumer : Consumer A
  pub accepted : List A
  pub delivered : List A

module _ {A : Type 0} where
  abbrev pub start : (ℕ → A) → World A
  start cells = record {
    ring = init cells;
    producer = Producer.outside;
    consumer = Consumer.outside;
    accepted = [];
    delivered = [];
  }

  pub data Step (N : ℕ) (s : World A) : World A → Type 0 where
    push_load :
        (item : A)
        → s.producer ≡ Producer.outside
        → Step N s (record s { producer = Producer.loaded item s.ring.write })
    push_full :
        (item : A) (w : ℕ)
        → s.producer ≡ Producer.loaded item w
        → next N w ≡ s.ring.read
        → Step N s (record s { producer = Producer.outside })
    push_room :
        (item : A) (w : ℕ)
        → s.producer ≡ Producer.loaded item w
        → next N w ≢ s.ring.read
        → Step N s (record s { producer = Producer.filling item w })
    push_fill :
        (item : A) (w : ℕ)
        → s.producer ≡ Producer.filling item w
        → Step N s (record s {
          ring = record (s.ring) { buf = update s.ring.buf w item };
          producer = Producer.publishing item w;
        })
    push_publish :
        (item : A) (w : ℕ)
        → s.producer ≡ Producer.publishing item w
        → Step N s (record s {
          ring = record (s.ring) { write = next N w };
          producer = Producer.outside;
          accepted = s.accepted ++ item ∷ [];
        })
    pop_load :
        s.consumer ≡ Consumer.outside
        → Step N s (record s { consumer = Consumer.loaded s.ring.read })
    pop_empty :
        (r : ℕ)
        → s.consumer ≡ Consumer.loaded r
        → r ≡ s.ring.write
        → Step N s (record s { consumer = Consumer.outside })
    pop_item :
        (r : ℕ)
        → s.consumer ≡ Consumer.loaded r
        → r ≢ s.ring.write
        → Step N s (record s { consumer = Consumer.copying r })
    pop_copy :
        (r : ℕ)
        → s.consumer ≡ Consumer.copying r
        → Step N s (record s { consumer = Consumer.advancing r (s.ring.buf r) })
    pop_publish :
        (r : ℕ) (out : A)
        → s.consumer ≡ Consumer.advancing r out
        → Step N s (record s {
          ring = record (s.ring) { read = next N r };
          consumer = Consumer.outside;
          delivered = s.delivered ++ out ∷ [];
        })

  pub data Steps (N : ℕ) (s : World A) : World A → Type 0 where
    here : Steps N s s
    later : {t u : World A} → Steps N s t → Step N t u → Steps N s u
