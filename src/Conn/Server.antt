-- ===== src/Conn/Server.antt =====
-- The callbacks of src/server.cc, on the connection that they are called for.
use capy_js.Prelude.{
  ℕ, ◌+◌, ◌-◌, Bool, true, false, Option, none, some, List, length, if◌then◌else◌, ◌||◌, ◌&&◌, ltb,
}
use capy_js.Receive
use capy_js.Receive.{
  Client, recv_new_buffer, clear_buffer, process_web_socket_request, broken, processed,
}
use capy_js.Conn.{
  Handle, Conn, http_1, web_socket, is_active, ◌>>=◌, guard_acquire, guard_release, close_once,
  read_start,
}
use capy_js.Conn.Response.{resp_with_404}

-- Buffers that go back to their pool, which must be out of it.
unfoldable pub give_back : ℕ → Conn → Option Conn
give_back n c = if ltb c.buffers n then none else some (record c { buffers = c.buffers - n })

-- `client_ops::clear_buffer`: the buffers go back to their pool.
unfoldable pub clear : Conn → Option Conn
clear c =
    let (released, client) = clear_buffer c.client in
    give_back (length released) (record c { client = client })

unfoldable pub on_idle_timeout_cb : Conn → Option Conn
on_idle_timeout_cb c = if c.client_held then close_once c else none

-- The part of `on_client_closed_cb` for `activeWs` and that for the guard.
unfoldable pub close_ws : Conn → Option Conn
close_ws c =
    if c.active_ws
    then (if c.ws_held then some (record c { active_ws = false; ws_held = false }) else none)
    else some c

unfoldable pub drop_guard : Conn → Option Conn
drop_guard c =
    if c.guard
    then (if c.guard_held
        then (guard_release (record c { alive = false }) >>= λ d. some (record d { guard = false }))
        else none)
    else some c

unfoldable pub close_timer : Conn → Option Conn
close_timer c =
    if is_active c.idle_timer then some (record c { idle_timer = Handle.closing }) else none

unfoldable pub on_client_closed_cb : Conn → Option Conn
on_client_closed_cb c =
    if c.client_held
    then (clear (record c { socket = Handle.closed; closing = true }) >>= λ b.
        close_ws b >>= λ d. drop_guard d >>= λ e. close_timer e)
    else none

unfoldable pub on_idle_timer_closed_cb : Conn → Option Conn
on_idle_timer_closed_cb c =
    if c.client_held
    then some (record c { idle_timer = Handle.closed; client_held = false })
    else none

unfoldable pub on_write_cb : Conn → Option Conn
on_write_cb c =
    if c.client_held
    then (if c.pending_write_buffer
        then some (
            read_start
              (record c { write = none; write_in_flight = false; pending_write_buffer = false }))
        else none)
    else none

unfoldable pub on_static_write_cb : Conn → Option Conn
on_static_write_cb c =
    if c.client_held
    then some (read_start (record c { write = none; write_in_flight = false }))
    else none

-- What `phr_parse_request` and the routes make of the bytes received: more are to come, they are no
-- request, a request for an upgrade, or one whose route is known or not.
pub data Parsed : Type 0 where
  incomplete : Parsed
  malformed : Parsed
  upgrade : Parsed
  request : Bool → Parsed

-- The branch for an upgrade: the response is deleted, and its request is not.
unfoldable pub switch_protocol : Conn → Conn
switch_protocol c = record c {
  requests = c.requests + 1;
  active_ws = true;
  ws_held = true;
  conn_protocol = web_socket;
}

-- `found` says whether the script's function gets the response, which then holds the guard.
unfoldable pub invoke : Bool → Bool → Conn → Option Conn
invoke found accepted c =
    guard_acquire (record c { responses = c.responses + 1; requests = c.requests + 1 }) >>= λ d.
    if found then some d else resp_with_404 accepted d

unfoldable pub process_http_1_request : Parsed → Bool → List ℕ → Conn → Option Conn
process_http_1_request outcome accepted buff before =
    let c = record before { client = recv_new_buffer buff before.client } in
    elim outcome [
      | incomplete ↦ some c
      | malformed ↦ close_once c
      | upgrade ↦
          if c.write_in_flight || c.closing
          then (clear c >>= λ d. some (record d { reading = false }))
          else (clear (record c { write_in_flight = true }) >>= λ d. some (switch_protocol d))
      | request found ↦
          if c.write_in_flight || c.closing
          then (clear c >>= λ d. some (record d { reading = false }))
          else (clear (record c { write_in_flight = true }) >>= λ d. invoke found accepted d)
    ]

-- `on_alloc_buffer_cb` and then `on_read_cb`, as libuv calls them: what `nread` says.
pub data Read : Type 0 where
  bytes : List ℕ → Read
  eof : Read
  no_buffers : Read
  failed : Read

unfoldable pub on_alloc_buffer_cb : Bool → Conn → Conn
on_alloc_buffer_cb acquired c = if acquired then record c { buffers = c.buffers + 1 } else c

unfoldable pub on_web_socket : Receive.Processed → Conn → Option Conn
on_web_socket broken c = none
on_web_socket (processed message released client) c =
    give_back (length released) (record c { client = client })

unfoldable pub on_read_cb : Read → Parsed → Bool → Conn → Option Conn
on_read_cb (bytes buff) outcome accepted c =
    if c.client_held
    then (elim c.conn_protocol [
      | http_1 ↦ process_http_1_request outcome accepted buff c
      | web_socket ↦
          if c.active_ws && c.ws_held
          then on_web_socket (process_web_socket_request true buff c.client) c
          else none
    ])
    else none
on_read_cb eof outcome accepted c =
    if c.client_held then (give_back 1 c >>= λ d. close_once d) else none
on_read_cb no_buffers outcome accepted c = if c.client_held then close_once c else none
on_read_cb failed outcome accepted c =
    if c.client_held then (give_back 1 c >>= λ d. close_once d) else none

-- The end of `on_peer_connected` on a client and a guard that were free, where `listening` is whether
-- `uv_accept` and `uv_tcp_getpeername` have succeeded.
unfoldable pub connected : Bool → Conn
connected listening = record {
  client_held = true;
  closing = false;
  write_in_flight = false;
  conn_protocol = http_1;
  client = Receive.fresh;
  pending_write_buffer = false;
  active_ws = false;
  ws_held = false;
  guard = true;
  guard_held = true;
  alive = true;
  ref_count = 1;
  socket = Handle.active;
  idle_timer = Handle.active;
  reading = listening;
  write = none;
  shutdown = false;
  buffers = 0;
  responses = 0;
  requests = 0;
}
