-- ===== src/Signals.antt =====
-- `SignalContext` of src/signal_context.cc, for one signal: who keeps its handle open. `none` is a fault:
-- a second `uv_close`, or the start of a handle that is closing.
use capy_js.Prelude.{
  ℕ, ◌+◌, ◌-◌, ◌%◌, ◌^◌, ◌<◌, ◌≡◌, ◌≢◌, Bool, true, false, ◌&&◌, Option, none, some, ◌==◌,
  if◌then◌else◌,
}
pub mod Safety
mod Tests

-- The handle: `fresh` before `uv_signal_init`, `closed` once libuv has let go of it.
pub data Handle : Type 0 where
  fresh : Handle
  open_yet : Handle
  closing : Handle
  closed : Handle

pub record SigEntry : Type 0 where
  pub handle : Handle
  pub refcount : ℕ
  pub active : Bool

-- The entry that `signals[signum]` makes.
abbrev pub no_entry : SigEntry
no_entry = record { handle = fresh; refcount = 0; active = false }

-- `uv_signal_init` and `uv_signal_start`, and `uv_close`.
unfoldable pub start_handle : SigEntry → Option SigEntry
start_handle e = elim e.handle [
  | fresh ↦ some (record e { handle = open_yet; active = true })
  | open_yet ↦ none
  | closing ↦ none
  | closed ↦ some (record e { handle = open_yet; active = true })
]

unfoldable pub close_handle : SigEntry → Option SigEntry
close_handle e = elim e.handle [
  | fresh ↦ none
  | open_yet ↦ some (record e { handle = closing; active = false })
  | closing ↦ none
  | closed ↦ none
]

-- `refcount` is the bit pattern of an `int`.
unfoldable pub register_daemon : SigEntry → Option SigEntry
register_daemon e =
    let counted = record e { refcount = (e.refcount + 1) % 2 ^ 32 } in
    if counted.refcount == 1 then start_handle counted else some counted

unfoldable pub deregister_daemon : SigEntry → Option SigEntry
deregister_daemon e =
    let counted = record e { refcount = (e.refcount + 2 ^ 32 - 1) % 2 ^ 32 } in
    if (counted.refcount == 0) && counted.active then close_handle counted else some counted

unfoldable pub on_signal_cb : SigEntry → Option SigEntry
on_signal_cb e = close_handle e

-- What can happen, as long as each daemon deregisters once and there are fewer than 2^31. A daemon may
-- register again only when the handle of the last ones is not closing any more.
pub data Step (e : SigEntry) (r : Option SigEntry) : Type 0 where
  registered : e.handle ≢ closing → e.refcount < 2 ^ 31 → r ≡ register_daemon e → Step e r
  deregistered : 0 < e.refcount → r ≡ deregister_daemon e → Step e r
  signalled : e.handle ≡ open_yet → r ≡ on_signal_cb e → Step e r
  closed_now : e.handle ≡ closing → r ≡ some (record e { handle = closed }) → Step e r

pub data Steps (e : SigEntry) : SigEntry → Type 0 where
  here : Steps e e
  later : {d f : SigEntry} → Steps e d → Step d (some f) → Steps e f
