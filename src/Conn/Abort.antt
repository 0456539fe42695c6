-- ===== src/Conn/Abort.antt =====
-- `abort`, which answers when `malloc` has no block.
use capy_js.Prelude.{◌<◌, ◌≡◌, arith, Bool, false, none, some}
use capy_js.Conn.{closing, Conn, close_socket, uv_write, on_abort_write}
use capy_js.Conn.Response.{abort}
use capy_js.Conn.Server.{connected}
use capy_js.Conn.Steps.{Steps}
use capy_js.Conn.Inv.{connected-Inv}
use capy_js.Conn.Safety.{Steps-Inv}

-- On a connection whose socket is closing, but not closed yet, the write of `abort` is refused, which
-- leaves the connection as it was, and the close of the socket that follows is a second one: `abort`
-- faults.
pub abort_closes_twice :
    (listening accepted : Bool) {c : Conn}
    → Steps (connected listening) c
    → c.socket ≡ closing
    → 0 < c.responses
    → (uv_write on_abort_write accepted c ≡ some (false, c))
      × (close_socket c ≡ none)
      × (abort accepted c ≡ none)
unfolding abort close_socket uv_write
abort_closes_twice listening accepted {c} s e n =
    ground (arith, Steps-Inv (connected-Inv listening) s)
