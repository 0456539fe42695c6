-- ===== src/Conn/Tests.antt =====
-- Small lives of a connection.
use capy_js.Prelude.{◌<◌, ◌-◌, ◌≤◌, ◌≡◌, ◌⊎◌, refl, sym, arith, true, false, none, some, [], ◌∷◌}
use capy_js.Receive
use capy_js.Conn.{closing, closed, Conn, guard_acquire, guard_release, close_socket, close_once}
use capy_js.Conn.Response.{send, abort}
use capy_js.Conn.Server.{
  connected, request, on_alloc_buffer_cb, on_read_cb, process_http_1_request, invoke, clear,
  give_back, close_ws, drop_guard, close_timer, on_idle_timeout_cb, on_client_closed_cb,
  on_idle_timer_closed_cb,
}
use capy_js.Conn.Steps.{
  Step, read_http, timeout, socket_closed, timer_closed, sent, Steps, here, later,
}
use capy_js.Conn.Safety.{never_faults, all_returned, late_answer_dropped, one_at_a_time}
use capy_js.Conn.Abort.{abort_closes_twice}

-- A request has come, and the script holds its response.
abbrev asked : Conn
asked = record (connected true) {
  write_in_flight = true;
  ref_count = 2;
  responses = 1;
  requests = 1;
}

asked-Steps : Steps (connected true) asked
unfolding connected on_read_cb on_alloc_buffer_cb process_http_1_request invoke clear give_back
    guard_acquire Receive.recv_new_buffer Receive.clear_buffer
asked-Steps = later here (read_http (71 ∷ []) (request true) true refl refl refl)

-- It takes so long to answer that the idle timer closes the connection.
abbrev expired : Conn
expired = record asked { socket = closing; reading = false }

expired-Steps : Steps (connected true) expired
unfolding connected on_idle_timeout_cb close_once close_socket
expired-Steps = later asked-Steps (timeout refl refl)

abbrev gone : Conn
gone = record expired {
  socket = closed;
  closing = true;
  alive = false;
  guard = false;
  ref_count = 1;
  idle_timer = closing;
}

gone_Steps : Steps (connected true) gone
unfolding connected on_client_closed_cb drop_guard close_ws clear give_back guard_release
    close_timer Receive.clear_buffer
gone_Steps = later expired-Steps (socket_closed refl refl refl refl)

abbrev freed : Conn
freed = record gone { idle_timer = closed; client_held = false }

freed_Steps : Steps (connected true) freed
unfolding connected on_idle_timer_closed_cb
freed_Steps = later gone_Steps (timer_closed refl refl)

never_faults_example : ¬ Step freed none
never_faults_example = never_faults true freed_Steps

late_answer_dropped_example :
    (send false true freed
      ≡ some (record freed {
        ref_count = 0;
        guard_held = false;
        responses = 0;
        requests = freed.requests - 1;
      }))
    × (0 < freed.requests)
unfolding connected
late_answer_dropped_example = late_answer_dropped true false true freed_Steps refl (omega arith)

abbrev answered : Conn
answered = record freed { ref_count = 0; guard_held = false; responses = 0; requests = 0 }

answered-Steps : Steps (connected true) answered
unfolding connected
answered-Steps = later freed_Steps (
    sent false true (omega arith)
      (sym (late_answer_dropped true false true freed_Steps refl (omega arith)).0))

all_returned_example :
    (answered.client_held ≡ false) × (answered.guard_held ≡ false) × (answered.buffers ≡ 0)
all_returned_example = all_returned true answered-Steps refl refl

one_at_a_time_example : (asked.responses ≤ 1) × ((asked.write ≡ none) ⊎ (asked.responses ≡ 0))
one_at_a_time_example = one_at_a_time true asked-Steps

abort_closes_twice_example : abort true expired ≡ none
unfolding connected
abort_closes_twice_example = (abort_closes_twice true true expired-Steps refl (omega arith)).2
