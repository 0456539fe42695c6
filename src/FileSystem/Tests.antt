-- ===== src/FileSystem/Tests.antt =====
-- Runs of the files, at concrete descriptors and bytes.
use capy_js.Prelude.{
  times, ℕ, ◌+◌, ◌≡◌, refl, arith, Bool, true, false, Option, none, some, [], ◌∷◌, update, elem,
}
use capy_js.FileSystem.{
  FileOpState, Answer, opened, bytes, closed, Op, opening, reading, closing, Request, World, begin,
  new_entry, open_file_async, with_buffer, start_read, read_file_async, close_file_async, fill,
  put_bytes, perform, opened_entry, open_file_async_cb, text_of, read_file_async_cb,
  close_file_async_cb, call_back, is_quiet, Step, opens, reads, performs, calls_back, Steps, here,
  later,
}
use capy_js.FileSystem.Inv.{In}
use capy_js.FileSystem.Counts.{times_called, times_due}
use capy_js.FileSystem.Safety.{files_never_fault, answers_are_told_once}
use capy_js.FileSystem.Races.{late_close_forgets_new_file}

abbrev no_fds : ℕ → Bool
no_fds fd = false

abbrev request : ℕ → Op → Option Answer → Request
request a op result = record { state = a; op = op; result = result }

-- Descriptor 5 is opened, and its bytes are read into a buffer of four.
abbrev entry : FileOpState
entry = record {
  fd = some 5;
  buf = some record { number = 0; content = 104 ∷ 105 ∷ [] };
  buf_len = 4;
  allocated = 1;
}

abbrev opened_entry_5 : FileOpState
opened_entry_5 = record new_entry { fd = some 5 }

abbrev opened_5 : World
opened_5 = record (begin no_fds) {
  states = update (update (λ a. none) 0 (some new_entry)) 0 (some opened_entry_5);
  next_state = 1;
  fd_state = update (λ a. none) 5 (some 0);
  os_fds = update no_fds 5 true;
  asked = 1 ∷ [];
  found = (1, opened 5) ∷ [];
  called = (1, opened 5) ∷ [];
}

opened_5_run : Steps (begin no_fds) opened_5
unfolding open_file_async perform call_back open_file_async_cb opened_entry
opened_5_run =
    later
      (later (later here (opens 1 refl))
        (performs (opened 5) (request 0 (opening 1) none) [] refl refl refl refl))
      (calls_back (opened 5) (request 0 (opening 1) (some (opened 5))) [] refl refl refl)

abbrev pending : World
pending = record opened_5 {
  states =
      update opened_5.states 0
        (some record entry { buf = some record { number = 0; content = [] } });
  requests = request 0 (reading 2 0 4) none ∷ [];
  asked = 2 ∷ 1 ∷ [];
}

abbrev read_5 : World
read_5 = record pending {
  states = update pending.states 0 (some entry);
  requests = [];
  found = (2, bytes (104 ∷ 105 ∷ [])) ∷ (1, opened 5) ∷ [];
  called = (2, bytes (104 ∷ 105 ∷ [])) ∷ (1, opened 5) ∷ [];
}

read_5_run : Steps (begin no_fds) read_5
unfolding read_file_async start_read with_buffer is_quiet elem perform put_bytes fill call_back
    read_file_async_cb text_of
read_5_run =
    let text = bytes (104 ∷ 105 ∷ []) in
    later
      (later (later opened_5_run (reads 5 4 2 refl refl))
        (performs text (request 0 (reading 2 0 4) none) [] refl refl (omega arith) refl))
      (calls_back text (request 0 (reading 2 0 4) (some text)) [] refl refl refl)

files_never_fault_example : Step read_5 none → ⊥
files_never_fault_example = files_never_fault no_fds read_5 read_5_run

answers_are_told_once_example :
    ((cb : ℕ)
      → times cb read_5.asked
        ≡ times_called cb read_5.called + times_due cb read_5.requests + times cb read_5.ignored)
    × ((call : ℕ × Answer) → In call read_5.called → In call read_5.found)
answers_are_told_once_example = answers_are_told_once no_fds read_5 read_5_run

late_close_forgets_new_file_example :
    (w : World) × Steps (begin no_fds) w
    × (w.requests ≡ [])
    × (w.os_fds 5 ≡ true)
    × In (2, opened 5) w.called
    × ((buf_len cb : ℕ)
        → read_file_async 5 buf_len cb w
          ≡ some (record w { asked = cb ∷ w.asked; ignored = cb ∷ w.ignored }))
    × (close_file_async 5 w ≡ w)
late_close_forgets_new_file_example = late_close_forgets_new_file no_fds 5 1 2 refl

-- Two closings of one descriptor, both asked before the first is called back: the second uses the
-- entry that the first has deleted.
abbrev closed_twice : World
closed_twice = record opened_5 {
  requests = request 0 (closing 5) (some closed) ∷ request 0 (closing 5) (some closed) ∷ [];
}

abbrev after : Option World → Option World
after none = none
after (some w) = call_back closed (request 0 (closing 5) (some closed)) [] w

second_close_faults :
    after (
      call_back closed
        (request 0 (closing 5) (some closed))
        (request 0 (closing 5) (some closed) ∷ [])
        closed_twice)
    ≡ none
unfolding call_back close_file_async_cb
second_close_faults = refl

-- A second read with another length frees the buffer that the first one is to be read into.
second_read_faults :
    put_bytes 0 0
      (bytes (104 ∷ []))
      (start_read 0 8 3 record entry { buf = some record { number = 0; content = [] } } pending)
    ≡ none
unfolding put_bytes fill start_read with_buffer
second_read_faults = refl
