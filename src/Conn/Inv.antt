-- ===== src/Conn/Inv.antt =====
-- The invariant of a connection on which `malloc` has always had a block.
use capy_js.Prelude.{ℕ, ◌+◌, ◌<◌, ◌≤◌, ◌≡◌, ◌≢◌, arith, length-append}
use capy_js.Prelude.{Bool, true, false, not, ◌||◌, Option, none, some, List, [], ◌∷◌, length, ◌==◌}
use capy_js.Receive.{
  Client, recv_new_buffer, clear_buffer, process_web_socket_request, processed, after_message,
}
use capy_js.Conn.{
  Handle, active, closing, closed, is_active, http_1, web_socket, on_write, on_static_write,
  on_abort_write, Conn, guard_acquire, guard_release, close_socket, close_once, read_start,
  uv_write,
}
use capy_js.Conn.Response.{
  delete_req, delete_this, drop_response, send_static, send_dynamic, send, resp_with_404,
}
use capy_js.Conn.Server.{
  give_back, clear, on_idle_timeout_cb, close_ws, drop_guard, close_timer, on_client_closed_cb,
  on_idle_timer_closed_cb, on_write_cb, on_static_write_cb, Parsed, incomplete, malformed, upgrade,
  request, switch_protocol, invoke, process_http_1_request, bytes, eof, no_buffers, failed,
  on_alloc_buffer_cb, on_web_socket, on_read_cb, connected,
}

abbrev pub is_closed : Handle → Bool
is_closed closed = true
is_closed _ = false

abbrev pub one_if : Bool → ℕ
one_if true = 1
one_if false = 0

pub record Inv (c : Conn) : Type 0 where
  pub client_lives : c.client_held ≡ not (is_closed c.idle_timer)
  pub timer_runs : is_active c.idle_timer ≡ not (is_closed c.socket)
  pub marked : c.closing ≡ is_closed c.socket
  pub guards : c.guard ≡ not (is_closed c.socket)
  pub valid : c.alive ≡ c.guard
  pub counted : c.ref_count ≡ one_if c.guard + c.responses
  pub kept : c.guard_held ≡ not (c.ref_count == 0)
  pub one_response : c.responses ≤ 1
  pub in_flight : c.responses ≡ 1 → c.closing || c.write_in_flight ≡ true
  pub idle : c.write_in_flight ≡ false → c.write ≡ none
  pub free_handle : c.responses ≡ 1 → c.write ≡ none
  pub no_abort : c.write ≢ some on_abort_write
  pub calm : c.shutdown ≡ false
  pub quiet : c.socket ≡ closed → c.write ≡ none
  pub block : c.write ≡ some on_write → c.pending_write_buffer ≡ true
  pub lent : c.buffers ≡ length c.client.recv
  pub returned : c.socket ≡ closed → c.buffers ≡ 0
  pub reads : c.reading ≡ true → c.socket ≡ active
  pub ws_kept : c.ws_held ≡ c.active_ws
  pub ws_set : c.conn_protocol ≡ web_socket → c.active_ws ≡ not (is_closed c.socket)
  pub ws_gone : c.socket ≡ closed → c.active_ws ≡ false
  pub linked : c.responses ≤ c.requests

-- A handler that ends without a fault, in the invariant.
abbrev pub Fine : Option Conn → Type 0
Fine none = ⊥
Fine (some c) = Inv c

pub connected-Inv : (listening : Bool) → Inv (connected listening)
unfolding connected
connected-Inv listening = ground arith

pub on_idle_timeout_cb-Inv :
    (c : Conn) → Inv c → c.idle_timer ≡ active → Fine (on_idle_timeout_cb c)
unfolding on_idle_timeout_cb close_once close_socket
on_idle_timeout_cb-Inv c v e = ground arith

pub on_client_closed_cb-Inv :
    (c : Conn)
    → Inv c
    → c.socket ≡ closing
    → c.write ≡ none
    → c.shutdown ≡ false
    → Fine (on_client_closed_cb c)
unfolding on_client_closed_cb drop_guard close_ws clear give_back clear_buffer guard_release
    close_timer
on_client_closed_cb-Inv c v e w h = ground arith

pub on_idle_timer_closed_cb-Inv :
    (c : Conn) → Inv c → c.idle_timer ≡ closing → Fine (on_idle_timer_closed_cb c)
unfolding on_idle_timer_closed_cb
on_idle_timer_closed_cb-Inv c v e = ground arith

pub on_write_cb-Inv : (c : Conn) → Inv c → c.write ≡ some on_write → Fine (on_write_cb c)
unfolding on_write_cb read_start
on_write_cb-Inv c v e = ground arith

pub on_static_write_cb-Inv :
    (c : Conn) → Inv c → c.write ≡ some on_static_write → Fine (on_static_write_cb c)
unfolding on_static_write_cb read_start
on_static_write_cb-Inv c v e = ground arith

pub send-Inv :
    (c : Conn) (is_static accepted : Bool)
    → Inv c
    → 0 < c.responses
    → Fine (send is_static accepted c)
unfolding send send_static send_dynamic drop_response guard_release delete_req delete_this uv_write
send-Inv c is_static accepted v e = ground arith

-- A read event that ends the connection.
pub read_end-Inv :
    (c : Conn) (outcome : Parsed) (accepted : Bool)
    → Inv c
    → c.reading ≡ true
    → Fine (on_read_cb eof outcome accepted (on_alloc_buffer_cb true c))
      × Fine (on_read_cb no_buffers outcome accepted (on_alloc_buffer_cb false c))
      × Fine (on_read_cb failed outcome accepted (on_alloc_buffer_cb true c))
unfolding on_read_cb on_alloc_buffer_cb give_back close_once close_socket
read_end-Inv c outcome accepted v e = ground arith

-- Bytes on a connection that speaks HTTP.
pub read_http-Inv :
    (c : Conn) (buff : List ℕ) (outcome : Parsed) (accepted : Bool)
    → Inv c
    → c.reading ≡ true
    → c.conn_protocol ≡ http_1
    → Fine (on_read_cb (bytes buff) outcome accepted (on_alloc_buffer_cb true c))
unfolding on_read_cb on_alloc_buffer_cb process_http_1_request recv_new_buffer clear give_back
    clear_buffer close_once close_socket switch_protocol invoke guard_acquire guard_release
    resp_with_404 uv_write delete_this
read_http-Inv c buff incomplete accepted v e p =
    ground (arith, length-append c.client.recv (buff ∷ []))
read_http-Inv c buff malformed accepted v e p =
    ground (arith, length-append c.client.recv (buff ∷ []))
read_http-Inv c buff upgrade accepted v e p =
    ground (arith, length-append c.client.recv (buff ∷ []))
read_http-Inv c buff (request found) accepted v e p =
    ground (arith, length-append c.client.recv (buff ∷ []))

-- What a WebSocket read gives back and what it keeps are the buffers that there were.
processed-length :
    (buff : List ℕ) (client : Client) (message : Option (List ℕ)) (released : List (List ℕ))
    (next : Client)
    → process_web_socket_request true buff client ≡ processed message released next
    → length released + length next.recv ≡ length client.recv + 1
unfolding process_web_socket_request after_message recv_new_buffer clear_buffer
processed-length buff client message released next e =
    ground (arith, length-append client.recv (buff ∷ []))

pub read_web_socket-Inv :
    (c : Conn) (buff : List ℕ) (message : Option (List ℕ)) (released : List (List ℕ))
    (next : Client)
    → Inv c
    → c.reading ≡ true
    → c.conn_protocol ≡ web_socket
    → process_web_socket_request true buff c.client ≡ processed message released next
    → Fine (on_read_cb (bytes buff) incomplete true (on_alloc_buffer_cb true c))
unfolding on_read_cb on_alloc_buffer_cb on_web_socket give_back
read_web_socket-Inv c buff message released next v e p q =
    ground (arith, processed-length buff c.client message released next q)
