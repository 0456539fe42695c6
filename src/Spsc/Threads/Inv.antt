-- ===== src/Spsc/Threads/Inv.antt =====
-- What holds between any two accesses of the two threads.
use capy_js.Prelude.{ℕ, suc, ◌+◌, ◌<◌, ◌≡◌, refl, arith, ap, ◌∙◌, append_assoc}
use capy_js.Prelude.{[], ◌∷◌, ◌++◌, update}
use capy_js.Spsc.{Spsc, IsSize, next, init}
use capy_js.Spsc.Inv.{IsValid, init-IsValid, next-turn, count, count-lt}
use capy_js.Spsc.Refine.{window, window-snoc, window-update_outside, window_some, contents}
use capy_js.Spsc.Threads.{
  Producer, Consumer, World, start, Step, push_load, push_full, push_room, push_fill, push_publish,
  pop_load, pop_empty, pop_item, pop_copy, pop_publish, Steps, here, later,
}

module _ {A : Type 0} where
  -- The producer's locals are current, and past its test there is room for one item more.
  abbrev pub ProducerOk : ℕ → Spsc A → Producer A → Type 0
  ProducerOk N q Producer.outside = Unit
  ProducerOk N q (Producer.loaded item w) = w ≡ q.write
  ProducerOk N q (Producer.filling item w) = (w ≡ q.write) × (count N q + 1 < N)
  ProducerOk N q (Producer.publishing item w) =
      (w ≡ q.write) × (count N q + 1 < N) × (q.buf w ≡ item)

  abbrev pub ConsumerOk : ℕ → Spsc A → Consumer A → Type 0
  ConsumerOk N q Consumer.outside = Unit
  ConsumerOk N q (Consumer.loaded r) = r ≡ q.read
  ConsumerOk N q (Consumer.copying r) = (r ≡ q.read) × (0 < count N q)
  ConsumerOk N q (Consumer.advancing r out) = (r ≡ q.read) × (0 < count N q) × (q.buf r ≡ out)

  pub record Inv (N : ℕ) (s : World A) : Type 0 where
    pub valid : IsValid N s.ring
    pub kept : s.accepted ≡ s.delivered ++ contents N s.ring
    pub producer_ok : ProducerOk N s.ring s.producer
    pub consumer_ok : ConsumerOk N s.ring s.consumer

  -- The store of `push` into its cell is not seen by an observer of the queue.
  contents-fill :
      {N : ℕ} (q : Spsc A) (item : A) (w : ℕ)
      → IsValid N q
      → w ≡ q.write
      → contents N (record q { buf = update q.buf w item }) ≡ contents N q
  unfolding contents
  contents-fill {N} q item w v e =
      window-update_outside q.buf N w item (count N q) q.read (count N q) v.read_in (omega arith)
        (count-lt v) (ground arith)

  -- The store of `write_` makes the item its last.
  contents-publish :
      {N : ℕ} (q : Spsc A) (item : A) (w : ℕ)
      → IsValid N q
      → (w ≡ q.write) × (count N q + 1 < N) × (q.buf w ≡ item)
      → (count N (record q { write = next N w }) ≡ suc (count N q))
        × (contents N (record q { write = next N w }) ≡ contents N q ++ item ∷ [])
  unfolding contents
  contents-publish {N} q item w v (e, room, full) =
      (counted, ap (window q.buf N q.read) counted ∙ extended)
    where
      counted : count N (record q { write = next N w }) ≡ suc (count N q)
      counted = ground (arith, next-turn q.write v.size v.write_in)

      extended :
          window q.buf N q.read (suc (count N q)) ≡ window q.buf N q.read (count N q) ++ item ∷ []
      extended =
          window-snoc q.buf N (count N q) q.read v.read_in (omega arith)
          ∙ ap (λ (x : A). window q.buf N q.read (count N q) ++ x ∷ [])
              (ap q.buf (ground arith) ∙ full)

  -- The store of `read_` takes the first item off.
  contents-take :
      {N : ℕ} (q : Spsc A) (r : ℕ) (out : A)
      → IsValid N q
      → (r ≡ q.read) × (0 < count N q) × (q.buf r ≡ out)
      → (count N q ≡ suc (count N (record q { read = next N r })))
        × (contents N q ≡ out ∷ contents N (record q { read = next N r }))
  unfolding contents
  contents-take {N} q r out v (e, some, full) = ground (
    arith,
    next-turn q.read v.size v.read_in,
    window_some q.buf N q.read (count N q) (count N (record q { read = next N r })),
  )

  pub start-Inv : {N : ℕ} (cells : ℕ → A) → IsSize N → Inv N (start cells)
  unfolding init contents
  start-Inv cells s = record {
    valid = init-IsValid cells s;
    kept = refl;
    producer_ok = tt;
    consumer_ok = tt;
  }

  Step-Inv : {N : ℕ} {s t : World A} → Step N s t → Inv N s → Inv N t
  Step-Inv (push_load item e) v = ground arith
  Step-Inv (push_full item w e full) v = ground arith
  Step-Inv {N} {s} (push_room item w e room) v =
      ground (arith, next-turn s.ring.write v.valid.size v.valid.write_in)
  Step-Inv {N} {s} (push_fill item w e) v = ground (arith, contents-fill s.ring item w v.valid)
  Step-Inv {N} {s} (push_publish item w e) v = ground (
    arith,
    next-turn s.ring.write v.valid.size v.valid.write_in,
    contents-publish s.ring item w v.valid,
    append_assoc s.delivered (contents N s.ring) (item ∷ []),
  )
  Step-Inv (pop_load e) v = ground arith
  Step-Inv (pop_empty r e none) v = ground arith
  Step-Inv {N} {s} (pop_item r e some) v = ground arith
  Step-Inv (pop_copy r e) v = ground arith
  Step-Inv {N} {s} (pop_publish r out e) v = ground (
    arith,
    next-turn s.ring.read v.valid.size v.valid.read_in,
    contents-take s.ring r out v.valid,
    append_assoc s.delivered (out ∷ []) (contents N (record (s.ring) { read = next N r })),
  )

  -- Every state that the threads reach satisfies the invariant.
  pub Steps-Inv : {N : ℕ} {s t : World A} → Inv N s → Steps N s t → Inv N t
  Steps-Inv v here = v
  Steps-Inv v (later r st) = Step-Inv st (Steps-Inv v r)
