-- ===== src/Signals/Safety.antt =====
-- What holds of a signal that daemons register for and deregister from.
use capy_js.Prelude.{
  ◌^◌, ◌<◌, ◌≤◌, ◌≡◌, refl, arith, Bool, true, false, ◌&&◌, Option, none, some, ◌==◌,
}
use capy_js.Signals.{
  Handle, open_yet, SigEntry, no_entry, start_handle, close_handle, register_daemon,
  deregister_daemon, on_signal_cb, Step, registered, deregistered, signalled, closed_now, Steps,
  here, later,
}

abbrev pub is_open : Handle → Bool
is_open open_yet = true
is_open _ = false

record Kept (e : SigEntry) : Type 0 where
  held : e.active ≡ is_open e.handle
  counted : e.active ≡ true → 0 < e.refcount
  bounded : e.refcount ≤ 2 ^ 31

abbrev Fine : Option SigEntry → Type 0
Fine none = ⊥
Fine (some e) = Kept e

Step-Fine : (e : SigEntry) (r : Option SigEntry) → Step e r → Kept e → Fine r
unfolding register_daemon deregister_daemon on_signal_cb start_handle close_handle
Step-Fine e r (registered o small q) k = ground (arith, k)
Step-Fine e r (deregistered some_left q) k = ground (arith, k)
Step-Fine e r (signalled o q) k = ground (arith, k)
Step-Fine e r (closed_now o q) k = ground (arith, k)

Steps-Kept : {e d : SigEntry} → Kept e → Steps e d → Kept d
Steps-Kept k here = k
Steps-Kept k (later {d} {f} s st) = Step-Fine d (some f) st (Steps-Kept k s)

begun : Kept no_entry
begun = record { held = refl; counted = λ e. cc; bounded = omega arith }

-- When daemons register and deregister in balance, none while the handle is closing, no call and no
-- signal closes the handle twice or starts it while it is in use; and the entry is active exactly while
-- the handle is open, which some daemon then holds.
pub signal_closed_once :
    {e : SigEntry}
    → Steps no_entry e
    → (¬ Step e none) × (e.active ≡ is_open e.handle) × (e.active && (e.refcount == 0) ≡ false)
signal_closed_once {e} s =
    let k = Steps-Kept begun s in ((λ st. Step-Fine e none st k), k.held, ground (arith, k.counted))
