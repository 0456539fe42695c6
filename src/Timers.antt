-- ===== src/Timers.antt =====
-- setTimeout, setInterval and clearInterval of src/builtins/timer.cc over include/timer_context.h. A
-- timer is known by the address of its handle, which is not used again. `none` is a fault: a use of a
-- handle that is null, freed or closed already.
use capy_js.Prelude.{
  ℕ, ◌+◌, ◌≡◌, Bool, true, false, Option, none, some, List, [], ◌∷◌, ◌==◌, if◌then◌else◌, update,
}
pub mod Inv
pub mod Safety
mod Tests

-- A `uv_timer_t` with its callback; `repeat` says that it was started with a period.
pub record Timer : Type 0 where
  pub js_cb : ℕ
  pub repeat : Bool
  pub closing : Bool

-- `registered_cb` and `registered_interval_cb` are the members of `TimerContext`. `once` has the handles
-- that setTimeout has made, `issued` the ids that setInterval has returned, `running` those of them that
-- the script has not given to clearInterval, and `called` the timers whose callback was called.
pub record World : Type 0 where
  pub handles : ℕ → Option Timer
  pub next_handle : ℕ
  pub registered_cb : List ℕ
  pub registered_interval_cb : ℕ → Option ℕ
  pub once : ℕ → Bool
  pub issued : ℕ → Bool
  pub running : ℕ → Bool
  pub called : List ℕ

abbrev pub begin : World
begin = record {
  handles = λ a. none;
  next_handle = 0;
  registered_cb = [];
  registered_interval_cb = λ id. none;
  once = λ a. false;
  issued = λ id. false;
  running = λ id. false;
  called = [];
}

unfoldable pub start_timer : ℕ → Bool → World → World
start_timer cb repeat w = record w {
  handles =
      update w.handles w.next_handle (some record { js_cb = cb; repeat = repeat; closing = false });
  next_handle = w.next_handle + 1;
  registered_cb = cb ∷ w.registered_cb;
}

unfoldable pub set_time_out : ℕ → World → World
set_time_out cb w =
    let w' = start_timer cb false w in record w' { once = update w.once w.next_handle true }

-- `id` is what the generator gives.
unfoldable pub set_interval : ℕ → ℕ → World → World
set_interval cb id w =
    let w' = start_timer cb true w in
    record w' {
      registered_interval_cb = update w.registered_interval_cb id (some w.next_handle);
      issued = update w.issued id true;
      running = update w.running id true;
    }

-- `uv_close` asserts that the handle is not closing.
unfoldable pub uv_close : ℕ → World → Option World
uv_close a w = elim (w.handles a) [
  | none ↦ none
  | some t ↦
      if t.closing
      then none
      else some (record w { handles = update w.handles a (some (record t { closing = true })) })
]

-- `operator[]` of the map gives a null pointer for an id that it does not have.
unfoldable pub clear_interval : ℕ → World → Option World
clear_interval id w = elim (w.registered_interval_cb id) [
  | none ↦ none
  | some a ↦ uv_close a (record w { running = update w.running id false })
]

-- `timer_libuv_cb` and `set_interval_libuv_cb`
unfoldable pub timer_cb : ℕ → World → Option World
timer_cb a w = elim (w.handles a) [
  | none ↦ none
  | some t ↦
      let w' = record w { called = a ∷ w.called } in if t.repeat then some w' else uv_close a w'
]

unfoldable pub on_close : ℕ → World → World
on_close a w = record w { handles = update w.handles a none }

-- What can happen while the generator gives no id twice, and the script clears an interval once. The loop
-- runs a timer that is not closing, and closes one that is.
pub data Step (w : World) (next : Option World) : Type 0 where
  times_out : (cb : ℕ) → next ≡ some (set_time_out cb w) → Step w next
  repeats : (cb id : ℕ) → w.issued id ≡ false → next ≡ some (set_interval cb id w) → Step w next
  clears : (id : ℕ) → w.running id ≡ true → next ≡ clear_interval id w → Step w next
  fires :
      (a : ℕ) (t : Timer)
      → w.handles a ≡ some t
      → t.closing ≡ false
      → next ≡ timer_cb a w
      → Step w next
  closes :
      (a : ℕ) (t : Timer)
      → w.handles a ≡ some t
      → t.closing ≡ true
      → next ≡ some (on_close a w)
      → Step w next

pub data Steps (w : World) : World → Type 0 where
  here : Steps w w
  later : {u v : World} → Steps w u → Step u (some v) → Steps w v
