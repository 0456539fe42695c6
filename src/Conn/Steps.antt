-- ===== src/Conn/Steps.antt =====
-- What can happen to a connection, as libuv and the script choose: callbacks of handles that are not
-- closed, reads while it reads, the callback of a pending write, and one `end` for a response that the
-- script holds.
use capy_js.Prelude.{ℕ, ◌<◌, ◌≡◌, Bool, true, false, Option, none, some, List}
use capy_js.Receive.{Client, process_web_socket_request, processed}
use capy_js.Conn.{active, closing, http_1, web_socket, on_write, on_static_write, Conn}
use capy_js.Conn.Response.{send}
use capy_js.Conn.Server.{
  on_idle_timeout_cb, on_client_closed_cb, on_idle_timer_closed_cb, on_write_cb, on_static_write_cb,
  Parsed, bytes, eof, no_buffers, failed, on_alloc_buffer_cb, on_read_cb,
}

-- `r` is what the callback comes to, a fault included. The close callback of the socket comes after
-- the callbacks of its requests; a WebSocket read is one whose frame keeps to the buffer.
pub data Step (c : Conn) (r : Option Conn) : Type 0 where
  read_http :
      (buff : List ℕ) (outcome : Parsed) (accepted : Bool)
      → c.reading ≡ true
      → c.conn_protocol ≡ http_1
      → r ≡ on_read_cb (bytes buff) outcome accepted (on_alloc_buffer_cb true c)
      → Step c r
  read_web_socket :
      (buff : List ℕ) (message : Option (List ℕ)) (released : List (List ℕ)) (next : Client)
      → c.reading ≡ true
      → c.conn_protocol ≡ web_socket
      → process_web_socket_request true buff c.client ≡ processed message released next
      → r ≡ on_read_cb (bytes buff) Parsed.incomplete true (on_alloc_buffer_cb true c)
      → Step c r
  read_end :
      c.reading ≡ true
      → r ≡ on_read_cb eof Parsed.incomplete true (on_alloc_buffer_cb true c)
      → Step c r
  read_denied :
      c.reading ≡ true
      → r ≡ on_read_cb no_buffers Parsed.incomplete true (on_alloc_buffer_cb false c)
      → Step c r
  read_failed :
      c.reading ≡ true
      → r ≡ on_read_cb failed Parsed.incomplete true (on_alloc_buffer_cb true c)
      → Step c r
  timeout : c.idle_timer ≡ active → r ≡ on_idle_timeout_cb c → Step c r
  socket_closed :
      c.socket ≡ closing
      → c.write ≡ none
      → c.shutdown ≡ false
      → r ≡ on_client_closed_cb c
      → Step c r
  timer_closed : c.idle_timer ≡ closing → r ≡ on_idle_timer_closed_cb c → Step c r
  written : c.write ≡ some on_write → r ≡ on_write_cb c → Step c r
  static_written : c.write ≡ some on_static_write → r ≡ on_static_write_cb c → Step c r
  sent : (is_static accepted : Bool) → 0 < c.responses → r ≡ send is_static accepted c → Step c r

-- Any number of them, none a fault.
pub data Steps (c : Conn) : Conn → Type 0 where
  here : Steps c c
  later : {d e : Conn} → Steps c d → Step d (some e) → Steps c e
