-- ===== src/Spsc/Tests.antt =====
-- The ring at small sizes, and the theorems about it at concrete states.
use capy_js.Prelude.{ℕ, ◌<◌, ◌≡◌, ◌≢◌, refl, arith}
use capy_js.Prelude.{true, false, none, some, List, [], ◌∷◌, ◌++◌, length}
use capy_js.Fifo
use capy_js.Fifo.{Op, put, get, took, gave}
use capy_js.Spsc.{IsSize, next, init, push, pop, run}
use capy_js.Spsc.Inv.{init-IsValid}
use capy_js.Spsc.Refine.{contents, run_refines}
use capy_js.Spsc.Threads.{
  Producer, Consumer, World, start, push_load, push_room, pop_load, pop_item, Steps, later,
}
use capy_js.Spsc.Threads.Safety.{fifo_between_threads, no_shared_cell, refused_when_full}
use capy_js.Spsc.Threads.Runs.{after_push, after_pop, push_is_a_run, pop_is_a_run}

abbrev zeros : ℕ → ℕ
zeros _ = 0

IsSize-four : IsSize 4
IsSize-four = record { power = refl; more = omega arith; word = omega arith }

abbrev script : List (Op ℕ)
script = put 1 ∷ put 2 ∷ put 3 ∷ put 4 ∷ get ∷ put 5 ∷ get ∷ get ∷ get ∷ get ∷ []

-- A ring of size 4 refuses the fourth item.
run_of_four :
    run 4 (init zeros) script
    ≡ took true
      ∷ took true
      ∷ took true
      ∷ took false
      ∷ gave (some 1)
      ∷ took true
      ∷ gave (some 2)
      ∷ gave (some 3)
      ∷ gave (some 5)
      ∷ gave none
      ∷ []
unfolding run init push pop next
run_of_four = refl

run_refines_example : run 4 (init zeros) script ≡ Fifo.run 3 [] script
unfolding init contents
run_refines_example = run_refines script (init-IsValid zeros IsSize-four)

abbrev one_pushed : World ℕ
one_pushed = after_push 4 7 (start zeros)

one_pushed_run : Steps 4 (start zeros) one_pushed
one_pushed_run = push_is_a_run 4 7 (start zeros) refl

fifo_between_threads_example :
    one_pushed.accepted ≡ one_pushed.delivered ++ contents 4 one_pushed.ring
fifo_between_threads_example = fifo_between_threads zeros IsSize-four one_pushed_run

-- The producer is about to write cell 1, the consumer to read cell 0.
abbrev racing : World ℕ
racing = record one_pushed { producer = Producer.filling 8 1; consumer = Consumer.copying 0 }

racing_run : Steps 4 (start zeros) racing
unfolding push init next
racing_run =
    later
      (later (later (later one_pushed_run (push_load 8 refl)) (push_room 8 1 refl (λ e. cc)))
        (pop_load refl))
      (pop_item 0 refl (λ e. cc))

no_shared_cell_example : ((◌≢◌ {A = ℕ} 1 0)) × (1 < 4) × (0 < 4)
no_shared_cell_example = no_shared_cell zeros IsSize-four 8 1 0 racing_run refl refl

IsSize-two : IsSize 2
IsSize-two = record { power = refl; more = omega arith; word = omega arith }

-- A ring of size 2 holds one item: the second call of `push` has read `write_`, and will refuse.
abbrev crowded : World ℕ
crowded = record (after_push 2 7 (start zeros)) { producer = Producer.loaded 9 1 }

crowded_run : Steps 2 (start zeros) crowded
unfolding push init next
crowded_run = later (push_is_a_run 2 7 (start zeros) refl) (push_load 9 refl)

refused_when_full_example : length (contents 2 crowded.ring) ≡ 1
unfolding push init next
refused_when_full_example = refused_when_full zeros IsSize-two 9 1 crowded_run refl refl

push_is_a_run_example : Steps 4 (start zeros) (after_push 4 7 (start zeros))
push_is_a_run_example = push_is_a_run 4 7 (start zeros) refl

pop_is_a_run_example : Steps 4 one_pushed (after_pop 4 one_pushed)
pop_is_a_run_example = pop_is_a_run 4 one_pushed refl
