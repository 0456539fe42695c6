-- ===== src/Conn/Response.antt =====
-- The answer to a request: `ResponseObject` of src/http_message.cc.
use capy_js.Prelude.{◌==◌, ◌-◌, Bool, true, false, Option, none, some, if◌then◌else◌}
use capy_js.Conn.{
  Conn, on_write, on_static_write, on_abort_write, ◌>>=◌, guard_release, close_socket, uv_write,
}

-- `delete this->req` and `delete this`
unfoldable pub delete_req : Conn → Option Conn
delete_req c = if c.requests == 0 then none else some (record c { requests = c.requests - 1 })

unfoldable pub delete_this : Conn → Option Conn
delete_this c = if c.responses == 0 then none else some (record c { responses = c.responses - 1 })

-- The return of `send` on a connection that is gone.
unfoldable pub drop_response : Conn → Option Conn
drop_response c = guard_release c >>= λ d. (delete_req d >>= λ e. delete_this e)

-- The write of `send`, on either branch of `is_static`.
unfoldable pub send_static : Bool → Conn → Option Conn
send_static accepted before = delete_req before >>= λ c.
    elim (uv_write on_static_write accepted c) [
      | none ↦ none
      | some (rc, d) ↦ guard_release d >>= λ e. delete_this e
    ]

-- The write fails or not, the response ends the same way: the block waits for `on_write_cb`.
unfoldable pub send_dynamic : Bool → Conn → Option Conn
send_dynamic accepted before = delete_req before >>= λ c.
    elim (uv_write on_write accepted (record c { pending_write_buffer = true })) [
      | none ↦ none
      | some (rc, d) ↦ guard_release d >>= λ e. delete_this e
    ]

unfoldable pub send : Bool → Bool → Conn → Option Conn
send is_static accepted c =
    if c.guard_held
    then (if c.alive
        then (if c.client_held
            then (if c.closing
                then drop_response c
                else (if is_static then send_static accepted c else send_dynamic accepted c))
            else none)
        else drop_response c)
    else none

-- `abort` drops the response, but not its request; its close of the socket is not guarded.
unfoldable pub drop_aborted : Conn → Option Conn
drop_aborted c = guard_release c >>= λ d. delete_this d

unfoldable pub abort : Bool → Conn → Option Conn
abort accepted c =
    if c.guard_held
    then (if c.alive
        then (if c.client_held
            then (if c.closing then drop_aborted c else (elim (uv_write on_abort_write accepted c) [
              | none ↦ none
              | some (true, d) ↦ drop_aborted d
              | some (false, d) ↦ close_socket d >>= λ e. drop_aborted e
            ]))
            else none)
        else drop_aborted c)
    else none

unfoldable pub resp_with_404 : Bool → Conn → Option Conn
resp_with_404 accepted c =
    if c.client_held
    then (elim (uv_write on_static_write accepted c) [
      | none ↦ none
      | some (rc, d) ↦ guard_release d >>= λ e. delete_this e
    ])
    else none

-- `uv_shutdown` from the callback of the write that `abort` has made; it fails on a handle that is
-- closing.
unfoldable pub on_abort_write_cb : Bool → Conn → Option Conn
on_abort_write_cb accepted c = some (record c { shutdown = accepted })

unfoldable pub on_abort_shutdown_cb : Conn → Option Conn
on_abort_shutdown_cb c = if c.client_held then close_socket c else none

-- `response_end` of src/builtins/response.cc, where `allocated` is whether `malloc` has a block.
unfoldable pub response_end : Bool → Bool → Conn → Option Conn
response_end allocated accepted c = if allocated then send false accepted c else abort accepted c
