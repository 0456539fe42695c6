-- ===== src/Conn/Safety.antt =====
-- What holds of every connection, from the accept on, as long as `malloc` has a block for each answer.
use capy_js.Prelude.{◌-◌, ◌<◌, ◌≤◌, ◌≡◌, arith, Bool, true, false, Option, none, some, ◌⊎◌}
use capy_js.Conn.{closed, Conn}
use capy_js.Conn.Response.{send, drop_response, delete_req, delete_this}
use capy_js.Conn.{guard_release}
use capy_js.Conn.Server.{connected}
use capy_js.Conn.Steps.{
  Step, read_http, read_web_socket, read_end, read_denied, read_failed, timeout, socket_closed,
  timer_closed, written, static_written, sent, Steps, here, later,
}
use capy_js.Conn.Inv.{
  Inv, Fine, connected-Inv, on_idle_timeout_cb-Inv, on_client_closed_cb-Inv,
  on_idle_timer_closed_cb-Inv, on_write_cb-Inv, on_static_write_cb-Inv, send-Inv, read_end-Inv,
  read_http-Inv, read_web_socket-Inv,
}

Step-Inv : (c : Conn) (r : Option Conn) → Step c r → Inv c → Fine r
Step-Inv c r (read_http buff outcome accepted e p q) v =
    rw q (read_http-Inv c buff outcome accepted v e p)
Step-Inv c r (read_web_socket buff message released next e p f q) v =
    rw q (read_web_socket-Inv c buff message released next v e p f)
Step-Inv c r (read_end e q) v = rw q (read_end-Inv c _ true v e).0
Step-Inv c r (read_denied e q) v = rw q (read_end-Inv c _ true v e).1
Step-Inv c r (read_failed e q) v = rw q (read_end-Inv c _ true v e).2
Step-Inv c r (timeout e q) v = rw q (on_idle_timeout_cb-Inv c v e)
Step-Inv c r (socket_closed e w h q) v = rw q (on_client_closed_cb-Inv c v e w h)
Step-Inv c r (timer_closed e q) v = rw q (on_idle_timer_closed_cb-Inv c v e)
Step-Inv c r (written e q) v = rw q (on_write_cb-Inv c v e)
Step-Inv c r (static_written e q) v = rw q (on_static_write_cb-Inv c v e)
Step-Inv c r (sent is_static accepted n q) v = rw q (send-Inv c is_static accepted v n)

pub Steps-Inv : {c d : Conn} → Inv c → Steps c d → Inv d
Steps-Inv v here = v
Steps-Inv v (later {d} {e} s st) = Step-Inv d (some e) st (Steps-Inv v s)

-- In whatever order the callbacks of a connection and the answers of the script come, when each answer
-- is sent by `send` and no WebSocket frame runs past its buffer, no handler faults: none touches the client's state or the guard after its slot has gone back to its pool, closes
-- a handle twice, uses the write request while a write is pending, or frees a block twice.
pub never_faults : (listening : Bool) {c : Conn} → Steps (connected listening) c → ¬ Step c none
never_faults listening {c} s st = Step-Inv c none st (Steps-Inv (connected-Inv listening) s)

-- When each answer is sent by `send` and no WebSocket frame runs past its buffer, a connection that is
-- over gives everything back: once the idle timer is closed and no response is
-- left, the client's slot and the guard are free, and no read buffer is out.
pub all_returned :
    (listening : Bool) {c : Conn}
    → Steps (connected listening) c
    → c.idle_timer ≡ closed
    → c.responses ≡ 0
    → (c.client_held ≡ false) × (c.guard_held ≡ false) × (c.buffers ≡ 0)
all_returned listening {c} s e n = ground (arith, Steps-Inv (connected-Inv listening) s)

-- When each answer is sent by `send` and no WebSocket frame runs past its buffer, an answer that comes
-- after its connection has closed is dropped, whether or not the client's slot is free by then: `send` writes nothing, deletes the request and the response, and gives the guard
-- back; nothing else of the connection changes.
pub late_answer_dropped :
    (listening is_static accepted : Bool) {c : Conn}
    → Steps (connected listening) c
    → c.socket ≡ closed
    → 0 < c.responses
    → (send is_static accepted c
        ≡ some (record c {
          ref_count = 0;
          guard_held = false;
          responses = 0;
          requests = c.requests - 1;
        }))
      × (0 < c.requests)
unfolding send drop_response guard_release delete_req delete_this
late_answer_dropped listening is_static accepted {c} s e n =
    ground (arith, Steps-Inv (connected-Inv listening) s)

-- A connection answers one request at a time: it has at most one response, and then no write is
-- pending on its one write request.
pub one_at_a_time :
    (listening : Bool) {c : Conn}
    → Steps (connected listening) c
    → (c.responses ≤ 1) × ((c.write ≡ none) ⊎ (c.responses ≡ 0))
one_at_a_time listening {c} s = ground (arith, Steps-Inv (connected-Inv listening) s)
