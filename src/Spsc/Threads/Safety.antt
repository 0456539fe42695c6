-- ===== src/Spsc/Threads/Safety.antt =====
-- What the two threads may rely on, in every interleaving.
use capy_js.Prelude.{ℕ, ◌-◌, ◌<◌, ◌≡◌, ◌≢◌, arith}
use capy_js.Prelude.{◌++◌, length}
use capy_js.Spsc.{IsSize, next}
use capy_js.Spsc.Inv.{next-turn}
use capy_js.Spsc.Refine.{contents, length-contents}
use capy_js.Spsc.Threads.{Producer, Consumer, World, start, Steps}
use capy_js.Spsc.Threads.Inv.{Inv, start-Inv, Steps-Inv}

module _ {A : Type 0} {N : ℕ} (cells : ℕ → A) (size : IsSize N) where
  reached : {t : World A} → Steps N (start cells) t → Inv N t
  reached r = Steps-Inv (start-Inv cells size) r

  -- In every interleaving of one producer and one consumer on a new queue, the items handed out,
  -- followed by the items in the ring, are exactly the items accepted, in order.
  pub fifo_between_threads :
      {t : World A} → Steps N (start cells) t → t.accepted ≡ t.delivered ++ contents N t.ring
  fifo_between_threads r = (reached r).kept

  -- The two threads never touch one cell at once: while `push` writes its cell and `pop` reads its
  -- own, the cells differ, and both lie inside the array.
  pub no_shared_cell :
      {t : World A} (item : A) (w r : ℕ)
      → Steps N (start cells) t
      → t.producer ≡ Producer.filling item w
      → t.consumer ≡ Consumer.copying r
      → (w ≢ r) × (w < N) × (r < N)
  no_shared_cell {t} item w r steps p c =
      let v = reached steps in ((λ e. ground arith), ground arith, ground arith)

  -- A `push` that finds its next index at the read index refuses a ring that holds `N - 1` items,
  -- also when `pop` runs at the same time.
  pub refused_when_full :
      {t : World A} (item : A) (w : ℕ)
      → Steps N (start cells) t
      → t.producer ≡ Producer.loaded item w
      → next N w ≡ t.ring.read
      → length (contents N t.ring) ≡ N - 1
  refused_when_full {t} item w steps p full =
      let v = reached steps in
      ground (arith, next-turn t.ring.write v.valid.size v.valid.write_in, length-contents N t.ring)
