-- ===== src/Spsc/Threads/Runs.antt =====
-- The calls of `push` and `pop` as runs: the accesses above make up the two functions.
use capy_js.Prelude.{ℕ, ◌≡◌, refl, arith}
use capy_js.Prelude.{Option, none, some}
use capy_js.Prelude.{List, [], ◌∷◌, ◌++◌, ◌==◌, if◌then◌else◌, Bool-cases, inl, inr, append-nil}
use capy_js.Spsc.{next, push, pop}
use capy_js.Spsc.Threads.{
  Producer, Consumer, World, push_load, push_full, push_room, push_fill, push_publish, pop_load,
  pop_empty, pop_item, pop_copy, pop_publish, Steps, here, later,
}

module _ {A : Type 0} where
  -- The world after a call of `push` that no other thread interrupts.
  abbrev pub after_push : ℕ → A → World A → World A
  after_push N item s = record s {
    ring = (push N item s.ring).1;
    producer = Producer.outside;
    accepted = if (push N item s.ring).0 then s.accepted ++ item ∷ [] else s.accepted;
  }

  abbrev pub taken : Option A → List A
  taken none = []
  taken (some x) = x ∷ []

  abbrev pub after_pop : ℕ → World A → World A
  after_pop N s = record s {
    ring = (pop N s.ring).1;
    consumer = Consumer.outside;
    delivered = s.delivered ++ taken (pop N s.ring).0;
  }

  -- From any state with the producer outside `push`, its accesses alone lead to what `push` computes,
  -- on both branches.
  pub push_is_a_run :
      (N : ℕ) (item : A) (s : World A)
      → s.producer ≡ Producer.outside
      → Steps N s (after_push N item s)
  unfolding push
  push_is_a_run N item s idle = elim (Bool-cases (next N s.ring.write == s.ring.read)) [
    | inl full ↦
        rw full (
          later (later here (push_load item idle))
            (push_full item s.ring.write refl (ground arith)))
    | inr room ↦ rw room (
        later
          (later
            (later (later here (push_load item idle))
              (push_room item s.ring.write refl (λ e. ground arith)))
            (push_fill item s.ring.write refl))
          (push_publish item s.ring.write refl))
  ]

  -- Likewise for `pop`, from any state with the consumer outside it.
  pub pop_is_a_run :
      (N : ℕ) (s : World A) → s.consumer ≡ Consumer.outside → Steps N s (after_pop N s)
  unfolding pop
  pop_is_a_run N s idle = elim (Bool-cases (s.ring.read == s.ring.write)) [
    | inl bare ↦
        rw (bare, append-nil)
          (later (later here (pop_load idle)) (pop_empty s.ring.read refl (ground arith)))
    | inr some_left ↦ rw some_left (
        later
          (later
            (later (later here (pop_load idle)) (pop_item s.ring.read refl (λ e. ground arith)))
            (pop_copy s.ring.read refl))
          (pop_publish s.ring.read (s.ring.buf s.ring.read) refl))
  ]
