-- ===== src/Timers/Tests.antt =====
-- A timeout and an interval.
use capy_js.Prelude.{◌≡◌, refl, true, false, none, some, [], ◌∷◌, update, times}
use capy_js.Timers.{
  Timer, World, begin, start_timer, set_time_out, set_interval, uv_close, clear_interval, timer_cb,
  on_close, Step, times_out, repeats, fires, closes, Steps, here, later,
}
use capy_js.Timers.Inv.{spent}
use capy_js.Timers.Safety.{timers_never_fault, timeout_called_once, cleared_is_silent}

abbrev timeout : Timer
timeout = record { js_cb = 11; repeat = false; closing = false }

abbrev interval : Timer
interval = record { js_cb = 12; repeat = true; closing = false }

-- Callback 11 in a while, callback 12 again and again under the id 1234567.
abbrev both : World
both = record {
  handles = update (update (λ a. none) 0 (some timeout)) 1 (some interval);
  next_handle = 2;
  registered_cb = 12 ∷ 11 ∷ [];
  registered_interval_cb = update (λ id. none) 1234567 (some 1);
  once = update (λ a. false) 0 true;
  issued = update (λ id. false) 1234567 true;
  running = update (λ id. false) 1234567 true;
  called = [];
}

both_run : Steps begin both
unfolding set_time_out set_interval start_timer
both_run = later (later here (times_out 11 refl)) (repeats 12 1234567 refl refl)

abbrev fired : World
fired = record both {
  handles = update both.handles 0 (some record timeout { closing = true });
  called = 0 ∷ 1 ∷ [];
}

fired_run : Steps begin fired
unfolding timer_cb uv_close
fired_run =
    later (later both_run (fires 1 interval refl refl refl)) (fires 0 timeout refl refl refl)

abbrev stopped : World
stopped = record fired {
  handles = update fired.handles 1 (some record interval { closing = true });
  running = update fired.running 1234567 false;
}

abbrev freed : World
freed = record stopped { handles = update stopped.handles 1 none }

timers_never_fault_example : Step fired none → ⊥
timers_never_fault_example = timers_never_fault fired fired_run

timeout_called_once_example : times 0 fired.called ≡ spent (fired.handles 0)
timeout_called_once_example = timeout_called_once fired 0 fired_run refl

stopped_now : clear_interval 1234567 fired ≡ some stopped
unfolding clear_interval uv_close
stopped_now = refl

freed_run : Steps stopped freed
unfolding on_close
freed_run = later here (closes 1 (record interval { closing = true }) refl refl refl)

cleared_is_silent_example : times 1 freed.called ≡ times 1 fired.called
cleared_is_silent_example =
    cleared_is_silent fired stopped freed 1234567 1 fired_run refl stopped_now freed_run

-- The entry of a cleared interval stays: a second call closes the handle again, and a third one uses it
-- after it is freed.
second_clear_faults : clear_interval 1234567 stopped ≡ none
unfolding clear_interval uv_close
second_clear_faults = refl

third_clear_faults : clear_interval 1234567 freed ≡ none
unfolding clear_interval uv_close
third_clear_faults = refl

unknown_id_faults : clear_interval 7654321 both ≡ none
unfolding clear_interval uv_close
unknown_id_faults = refl

-- When the generator gives an id again, the older interval can be cleared no more.
abbrev twice : World
twice = set_interval 13 1234567 both

older_lost : twice.registered_interval_cb 1234567 ≡ some 2
unfolding set_interval start_timer
older_lost = refl
