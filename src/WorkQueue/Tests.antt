-- ===== src/WorkQueue/Tests.antt =====
-- The submission queue at small sizes, over a semaphore that is its number of units.
use capy_js.Prelude.{ℕ, ◌≡◌, ◌≢◌, refl, arith}
use capy_js.Prelude.{true, false, Option, none, some, [], ◌∷◌, ◌++◌, length}
use capy_js.Spsc
use capy_js.Spsc.{Spsc}
use capy_js.Spsc.Inv.{init-IsValid}
use capy_js.Spsc.Refine.{contents}
use capy_js.Semaphore.{counting}
use capy_js.WorkQueue.{WorkQueue, returned, init, enqueue, dequeue, stop, drain, drain_loop}
use capy_js.WorkQueue.Drain.{IsBalanced, drain_takes_all, enqueue_lem, dequeue_before_stop}
use capy_js.WorkQueue.Threads.{
  World, start, enqueue_push, enqueue_post, stop_store, stop_post, dequeue_wait, dequeue_go,
  dequeue_stopped, running, exited, Steps, here, later,
}
use capy_js.WorkQueue.Threads.Safety.{
  no_item_lost, consumer_finds_item, loop_ends_after_stop, stop_wakes_consumer, sleeps_when_empty,
}

abbrev zeros : ℕ → ℕ
zeros _ = 0

IsSize-four : Spsc.IsSize 4
IsSize-four = record { power = refl; more = omega arith; word = omega arith }

abbrev fresh : WorkQueue counting ℕ
fresh = record { queue = record { buf = zeros; write = 0; read = 0 }; sem = 0; stopped = false }

-- Items 5 and 6 are in, with a unit each.
abbrev two_in : WorkQueue counting ℕ
two_in = (enqueue counting 4 6 (enqueue counting 4 5 fresh).1).1

fresh-IsBalanced : IsBalanced counting 4 fresh
unfolding contents Spsc.init
fresh-IsBalanced = record { valid = init-IsValid zeros IsSize-four; balance = λ _. refl }

two_in-IsBalanced : IsBalanced counting 4 two_in
two_in-IsBalanced = (enqueue_lem counting 4 6 (enqueue_lem counting 4 5 fresh-IsBalanced).1).1

-- After `stop` both items are still there, and `dequeue` returns `false`.
stop_leaves_items :
    ((dequeue counting 4 (stop counting two_in)).0 ≡ returned none)
    × ((drain counting 4 (stop counting two_in)).0 ≡ 5 ∷ 6 ∷ [])
unfolding dequeue enqueue stop drain drain_loop Spsc.push Spsc.pop Spsc.next
stop_leaves_items = (refl, refl)

drain_takes_all_example : (drain counting 4 two_in).0 ≡ contents 4 two_in.queue
drain_takes_all_example = (drain_takes_all counting 4 two_in two_in-IsBalanced.valid).0

enqueue_lem_example : IsBalanced counting 4 (enqueue counting 4 7 two_in).1
enqueue_lem_example = (enqueue_lem counting 4 7 two_in-IsBalanced).1

two_in_running : two_in.stopped ≡ false
unfolding enqueue Spsc.push Spsc.next
two_in_running = refl

dequeue_before_stop_example : IsBalanced counting 4 (dequeue counting 4 two_in).1
dequeue_before_stop_example = (dequeue_before_stop counting 4 two_in-IsBalanced two_in_running).1

-- One item is pushed and posted, and the consumer is past the test of the flag.
abbrev ring_of_one : Spsc ℕ
ring_of_one = (Spsc.push 4 7 (Spsc.init zeros)).1

abbrev pushed_one : World counting ℕ
pushed_one = record (start counting zeros) {
  work = record { queue = ring_of_one; sem = 1; stopped = false };
  accepted = 7 ∷ [];
}

pushed_one_run : Steps counting 4 (start counting zeros) pushed_one
unfolding init Spsc.push Spsc.init Spsc.next
pushed_one_run = later (later here (enqueue_push 7 ring_of_one refl refl)) (enqueue_post refl)

no_item_lost_example :
    pushed_one.accepted ≡ pushed_one.delivered ++ contents 4 pushed_one.work.queue
no_item_lost_example = no_item_lost counting zeros IsSize-four pushed_one_run

abbrev popping : World counting ℕ
popping = record pushed_one {
  work = record { queue = ring_of_one; sem = 0; stopped = false };
  consumer = running;
}

popping_run : Steps counting 4 (start counting zeros) popping
popping_run = later (later pushed_one_run (dequeue_wait 0 refl refl)) (dequeue_go refl refl)

consumer_finds_item_example : (x : ℕ) × (q : Spsc ℕ) × (Spsc.pop 4 popping.work.queue ≡ (some x, q))
consumer_finds_item_example = consumer_finds_item counting zeros IsSize-four popping_run refl

-- `stop` on a queue that never held an item.
abbrev halted : World counting ℕ
halted = record (start counting zeros) {
  work = record { queue = Spsc.init zeros; sem = 1; stopped = true };
  halts = 1;
}

halted_run : Steps counting 4 (start counting zeros) halted
unfolding init
halted_run = later (later here (stop_store refl)) (stop_post refl)

stop_wakes_consumer_example : ◌≢◌ {A = Option ℕ} (some 0) none
stop_wakes_consumer_example =
    stop_wakes_consumer counting zeros IsSize-four halted_run (omega arith) refl

-- The consumer, woken by `stop`, reads the flag and leaves its loop.
abbrev left : World counting ℕ
left = record halted {
  work = record { queue = Spsc.init zeros; sem = 0; stopped = true };
  consumer = exited;
}

left_run : Steps counting 4 (start counting zeros) left
left_run = later (later halted_run (dequeue_wait 0 refl refl)) (dequeue_stopped refl refl)

loop_ends_after_stop_example : left.work.stopped ≡ true
loop_ends_after_stop_example = loop_ends_after_stop counting zeros IsSize-four left_run refl

sleeps_when_empty_example : length (contents 4 (start counting zeros).work.queue) ≡ 0
unfolding init
sleeps_when_empty_example =
    sleeps_when_empty counting {N = 4} zeros IsSize-four {t = start counting zeros} here refl refl
      refl
