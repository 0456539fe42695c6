-- ===== src/Signals/Tests.antt =====
-- A signal with two daemons, one after the other.
use capy_js.Prelude.{◌≡◌, refl, arith, true, false, none, ◌&&◌, ◌==◌}
use capy_js.Signals.{
  Handle, SigEntry, open_yet, no_entry, start_handle, close_handle, register_daemon,
  deregister_daemon, Step, Steps, registered, deregistered, closed_now, here, later,
}
use capy_js.Signals.Safety.{signal_closed_once, is_open}

abbrev again : SigEntry
again = record { handle = open_yet; refcount = 1; active = true }

again_run : Steps no_entry again
unfolding register_daemon deregister_daemon start_handle close_handle
again_run =
    later
      (later
        (later (later here (registered (λ e. cc e) (omega arith) refl))
          (deregistered (omega arith) refl))
        (closed_now refl refl))
      (registered (λ e. cc e) (omega arith) refl)

signal_closed_once_example :
    (¬ Step again none)
    × (again.active ≡ is_open again.handle)
    × (again.active && (again.refcount == 0) ≡ false)
signal_closed_once_example = signal_closed_once again_run

-- A daemon that registers in the turn of the loop in which the last one has deregistered starts a
-- handle that is closing.
registered_too_early :
    register_daemon (record { handle = Handle.closing; refcount = 0; active = false }) ≡ none
unfolding register_daemon start_handle
registered_too_early = refl
