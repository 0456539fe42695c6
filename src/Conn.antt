-- ===== src/Conn.antt =====
-- The life of one connection, with what it holds: the `ClientState` of include/client_state.h, its
-- `ConnGuard` of include/conn_guard.h, and the handles and requests that libuv has of it. `none` is a
-- fault: an access to a slot that has gone back to its pool, a second `uv_close` of a handle, a write
-- request used while it is pending, or a `free` or `delete` of what is gone.
use capy_js.Prelude.{ℕ, ◌+◌, ◌-◌, ◌%◌, ◌^◌, Bool, true, false, Option, none, some, List}
use capy_js.Prelude.{length, ◌==◌, if◌then◌else◌}
use capy_js.Receive
pub mod Response
pub mod Server
pub mod Steps
pub mod Inv
pub mod Safety
pub mod Abort
mod Tests

-- A handle of libuv: `closed` once its close callback has been called.
pub data Handle : Type 0 where
  active : Handle
  closing : Handle
  closed : Handle

abbrev pub is_active : Handle → Bool
is_active active = true
is_active _ = false

pub data Protocol : Type 0 where
  http_1 : Protocol
  web_socket : Protocol

-- The callback of the pending write on `write_handle`.
pub data WriteCb : Type 0 where
  on_write : WriteCb
  on_static_write : WriteCb
  on_abort_write : WriteCb

-- `client_held` and `guard_held` say that the slot is in use; `guard` that `client->guard` is not
-- null; `pending_write_buffer` that its block is allocated. `buffers` counts the read buffers that are
-- out of their pool for this connection, `responses` and `requests` its objects that are not deleted;
-- `active_ws` says that `activeWs` is not null, and `ws_held` that its block is allocated.
pub record Conn : Type 0 where
  pub client_held : Bool
  pub closing : Bool
  pub write_in_flight : Bool
  pub conn_protocol : Protocol
  pub client : Receive.Client
  pub pending_write_buffer : Bool
  pub active_ws : Bool
  pub ws_held : Bool
  pub guard : Bool
  pub guard_held : Bool
  pub alive : Bool
  pub ref_count : ℕ
  pub socket : Handle
  pub idle_timer : Handle
  pub reading : Bool
  pub write : Option WriteCb
  pub shutdown : Bool
  pub buffers : ℕ
  pub responses : ℕ
  pub requests : ℕ

-- A chain of steps that stops at a fault.
infixl 5 ◌>>=◌
abbrev pub ◌>>=◌ : Option Conn → (Conn → Option Conn) → Option Conn
none >>= f = none
some c >>= f = f c

-- `ConnGuard::acquire` and `ConnGuard::release`, with the count as the bit pattern of an `int`.
unfoldable pub guard_acquire : Conn → Option Conn
guard_acquire c =
    if c.guard_held then some (record c { ref_count = (c.ref_count + 1) % 2 ^ 32 }) else none

unfoldable pub guard_release : Conn → Option Conn
guard_release c =
    let left = (c.ref_count + 2 ^ 32 - 1) % 2 ^ 32 in
    if c.guard_held
    then (if left == 0
        then some (record c { ref_count = left; guard_held = false })
        else some (record c { ref_count = left }))
    else none

-- `uv_close` of the socket, which also ends the reading, and its guarded form.
unfoldable pub close_socket : Conn → Option Conn
close_socket c =
    if is_active c.socket
    then some (record c { socket = Handle.closing; reading = false })
    else none

unfoldable pub close_once : Conn → Option Conn
unfolding close_socket
close_once c = if is_active c.socket then close_socket c else some c

-- `uv_read_start`, which fails on a handle that is closing.
unfoldable pub read_start : Conn → Conn
read_start c = if is_active c.socket then record c { reading = true } else c

-- `uv_write` on `write_handle`; `accepted` is whether libuv takes the request, which it does not on a
-- handle that is closing.
unfoldable pub uv_write : WriteCb → Bool → Conn → Option (Bool × Conn)
uv_write cb accepted c = elim c.write [
  | some pending ↦ none
  | none ↦
      if is_active c.socket
      then (if accepted then some (true, record c { write = some cb }) else some (false, c))
      else some (false, c)
]
