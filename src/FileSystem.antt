-- ===== src/FileSystem.antt =====
-- The asynchronous files of src/builtins/fs.cc over include/file_system.h. A `FileOpState` has an
-- address that is never used again once it is deleted. `none` is a fault: an access to one that is
-- deleted, or to a buffer that is.
use capy_js.Prelude.{
  ℕ, ◌+◌, ◌≤◌, ◌≡◌, Bool, true, false, not, Option, none, some, List, [], ◌∷◌, ◌++◌, map, length,
  take, drop, ◌==◌, if◌then◌else◌, update, elem,
}
pub mod Inv
pub mod Calls
pub mod Counts
pub mod Requests
pub mod Safety
pub mod Races
mod Tests

-- A block of `new char[buf_len]`, known from the ones before it by its number.
pub record Buf : Type 0 where
  pub number : ℕ
  pub content : List ℕ

-- `fd` is `none` for -1; `allocated` counts the buffers that the entry has had.
pub record FileOpState : Type 0 where
  pub fd : Option ℕ
  pub buf : Option Buf
  pub buf_len : ℕ
  pub allocated : ℕ

-- What the operating system says of a request, and what a callback is called with; `bytes` is then what
-- `JS_NewStringLen` is given, which decodes it for the script.
pub data Answer : Type 0 where
  failed : ℕ → Answer
  opened : ℕ → Answer
  bytes : List ℕ → Answer
  closed : Answer

-- The three requests, with their callback; a read has the number and the size of its buffer, a close
-- the descriptor.
pub data Op : Type 0 where
  opening : ℕ → Op
  reading : ℕ → ℕ → ℕ → Op
  closing : ℕ → Op

-- A `uv_fs_t` and what its `data` leads to; `result` is `none` until a thread of the pool is done
-- with it.
pub record Request : Type 0 where
  pub state : ℕ
  pub op : Op
  pub result : Option Answer

-- `os_fds` says which descriptors are open; `asked` has the callbacks that the script has handed over
-- to open and read, `ignored` those of them for which no request was made, `found` what the operating system has answered to the request of which callback, and `called` the
-- calls. The order of `requests` means nothing.
pub record World : Type 0 where
  pub states : ℕ → Option FileOpState
  pub next_state : ℕ
  pub fd_state : ℕ → Option ℕ
  pub requests : List Request
  pub os_fds : ℕ → Bool
  pub asked : List ℕ
  pub ignored : List ℕ
  pub found : List (ℕ × Answer)
  pub called : List (ℕ × Answer)

abbrev pub begin : (ℕ → Bool) → World
begin os_fds = record {
  states = λ a. none;
  next_state = 0;
  fd_state = λ fd. none;
  requests = [];
  os_fds = os_fds;
  asked = [];
  ignored = [];
  found = [];
  called = [];
}

abbrev pub new_entry : FileOpState
new_entry = record { fd = none; buf = none; buf_len = 0; allocated = 0 }

unfoldable pub open_file_async : ℕ → World → World
open_file_async cb w = record w {
  states = update w.states w.next_state (some new_entry);
  next_state = w.next_state + 1;
  requests = record { state = w.next_state; op = opening cb; result = none } ∷ w.requests;
  asked = cb ∷ w.asked;
}

-- The part of `read_file_async` that keeps the buffer or makes a new one, and the number of the buffer.
unfoldable pub with_buffer : ℕ → FileOpState → FileOpState × ℕ
with_buffer buf_len e =
    let number = e.allocated in
    let renewed = record e {
      buf = some record { number = number; content = [] };
      buf_len = buf_len;
      allocated = number + 1;
    } in
    elim e.buf [
      | none ↦ (renewed, number)
      | some b ↦ if e.buf_len == buf_len then (e, b.number) else (renewed, number)
    ]

unfoldable pub start_read : ℕ → ℕ → ℕ → FileOpState → World → World
start_read a buf_len cb e w =
    let (e', number) = with_buffer buf_len e in
    record w {
      states = update w.states a (some e');
      requests = record { state = a; op = reading cb number buf_len; result = none } ∷ w.requests;
      asked = cb ∷ w.asked;
    }

-- A descriptor that is not known ends the call, and the callback is never called.
unfoldable pub read_file_async : ℕ → ℕ → ℕ → World → Option World
read_file_async fd buf_len cb w = elim (w.fd_state fd) [
  | none ↦ some (record w { asked = cb ∷ w.asked; ignored = cb ∷ w.ignored })
  | some a ↦ elim (w.states a) [ none ↦ none | some e ↦ some (start_read a buf_len cb e w) ]
]

unfoldable pub close_file_async : ℕ → World → World
close_file_async fd w = elim (w.fd_state fd) [
  | none ↦ w
  | some a ↦ record w {
    requests = record { state = a; op = closing fd; result = none } ∷ w.requests;
  }
]

-- What a thread of the pool does with the bytes that it reads: it writes them to the buffer of the
-- request, which must still be the entry's.
unfoldable pub fill : ℕ → List ℕ → Option FileOpState → Option FileOpState
fill number found none = none
fill number found (some e) = elim e.buf [
  | none ↦ none
  | some b ↦
      if b.number == number
      then some
          (record e { buf = some (record b { content = found ++ drop (length found) b.content }) })
      else none
]

unfoldable pub put_bytes : ℕ → ℕ → Answer → World → Option World
put_bytes a number (bytes found) w = elim (fill number found (w.states a)) [
  | none ↦ none
  | some e ↦ some (record w { states = update w.states a (some e) })
]
put_bytes a number (failed err) w = some w
put_bytes a number (opened fd) w = some w
put_bytes a number closed w = some w

abbrev pub with_fd : Answer → (ℕ → Bool) → ℕ → Bool
with_fd (opened fd) os_fds = update os_fds fd true
with_fd (failed err) os_fds = os_fds
with_fd (bytes found) os_fds = os_fds
with_fd closed os_fds = os_fds

-- A thread of the pool is done with the first of the requests, `rs` being the others.
unfoldable pub perform : Answer → Request → List Request → World → Option World
perform ans r rs w = elim r.op [
  | opening cb ↦ some (record w {
    requests = (record r { result = some ans }) ∷ rs;
    os_fds = with_fd ans w.os_fds;
    found = (cb, ans) ∷ w.found;
  })
  | reading cb number len ↦ elim (put_bytes r.state number ans w) [
    | none ↦ none
    | some w' ↦ some (record w' {
      requests = (record r { result = some ans }) ∷ rs;
      found = (cb, ans) ∷ w.found;
    })
  ]
  | closing fd ↦ some (record w {
    requests = (record r { result = some ans }) ∷ rs;
    os_fds = update w.os_fds fd false;
  })
]

-- `open_file_async_cb`
unfoldable pub opened_entry : Answer → ℕ → FileOpState → World → World
opened_entry (opened fd) a e w = record w {
  states = update w.states a (some (record e { fd = some fd }));
  fd_state = update w.fd_state fd (some a);
}
opened_entry (failed err) a e w = w
opened_entry (bytes found) a e w = w
opened_entry closed a e w = w

unfoldable pub open_file_async_cb : ℕ → Answer → ℕ → World → Option World
open_file_async_cb cb ans a w = elim (w.states a) [
  | none ↦ none
  | some e ↦ let w' = opened_entry ans a e w in some (record w' { called = (cb, ans) ∷ w'.called })
]

-- `read_file_async_cb`: `result` says how many bytes, and the entry has them. These are the arguments of
-- `JS_NewStringLen`, which makes a string of them.
unfoldable pub text_of : Answer → FileOpState → Option Answer
text_of (bytes found) e = elim e.buf [
  | none ↦ none
  | some b ↦ some (bytes (take (length found) b.content))
]
text_of (failed err) e = some (failed err)
text_of (opened fd) e = some (opened fd)
text_of closed e = some closed

unfoldable pub read_file_async_cb : ℕ → Answer → ℕ → World → Option World
read_file_async_cb cb ans a w = elim (w.states a) [
  | none ↦ none
  | some e ↦ elim (text_of ans e) [
    | none ↦ none
    | some text ↦ some (record w { called = (cb, text) ∷ w.called })
  ]
]

-- `close_file_async_cb`: `fd_state.erase(entry->fd)` and `delete entry`.
abbrev pub erase : Option ℕ → (ℕ → Option ℕ) → ℕ → Option ℕ
erase none fd_state = fd_state
erase (some fd) fd_state = update fd_state fd none

unfoldable pub close_file_async_cb : ℕ → World → Option World
close_file_async_cb a w = elim (w.states a) [
  | none ↦ none
  | some e ↦ some (record w { states = update w.states a none; fd_state = erase e.fd w.fd_state })
]

-- The loop calls the callback of a request that is done, which is then freed.
unfoldable pub call_back : Answer → Request → List Request → World → Option World
call_back ans r rs before =
    let w = record before { requests = rs } in
    elim r.op [
      | opening cb ↦ open_file_async_cb cb ans r.state w
      | reading cb number len ↦ read_file_async_cb cb ans r.state w
      | closing fd ↦ close_file_async_cb r.state w
    ]

abbrev pub states_of : List Request → List ℕ
states_of rs = map (λ r. r.state) rs

-- No request of this descriptor is under way.
unfoldable pub is_quiet : ℕ → World → Bool
is_quiet fd w = elim (w.fd_state fd) [ none ↦ true | some a ↦ not (elem a (states_of w.requests)) ]

-- What the operating system may answer: a new descriptor is not open, and a read keeps to its size.
abbrev pub IsPossible : World → Op → Answer → Type 0
IsPossible w (opening cb) (opened fd) = w.os_fds fd ≡ false
IsPossible w (opening cb) (failed err) = Unit
IsPossible w (opening cb) (bytes found) = ⊥
IsPossible w (opening cb) closed = ⊥
IsPossible w (reading cb number len) (opened fd) = ⊥
IsPossible w (reading cb number len) (failed err) = Unit
IsPossible w (reading cb number len) (bytes found) = length found ≤ len
IsPossible w (reading cb number len) closed = ⊥
IsPossible w (closing fd) (opened other) = ⊥
IsPossible w (closing fd) (failed err) = Unit
IsPossible w (closing fd) (bytes found) = ⊥
IsPossible w (closing fd) closed = Unit

-- What can happen while the script reads from and closes a descriptor only when no request of the
-- descriptor is under way. Requests are done, and called back, in any order: `others_first` turns them.
pub data Step (w : World) (next : Option World) : Type 0 where
  opens : (cb : ℕ) → next ≡ some (open_file_async cb w) → Step w next
  reads :
      (fd buf_len cb : ℕ)
      → is_quiet fd w ≡ true
      → next ≡ read_file_async fd buf_len cb w
      → Step w next
  closes : (fd : ℕ) → is_quiet fd w ≡ true → next ≡ some (close_file_async fd w) → Step w next
  others_first :
      (r : Request) (rs : List Request)
      → w.requests ≡ r ∷ rs
      → next ≡ some (record w { requests = rs ++ r ∷ [] })
      → Step w next
  performs :
      (ans : Answer) (r : Request) (rs : List Request)
      → w.requests ≡ r ∷ rs
      → r.result ≡ none
      → IsPossible w r.op ans
      → next ≡ perform ans r rs w
      → Step w next
  calls_back :
      (ans : Answer) (r : Request) (rs : List Request)
      → w.requests ≡ r ∷ rs
      → r.result ≡ some ans
      → next ≡ call_back ans r rs w
      → Step w next

pub data Steps (w : World) : World → Type 0 where
  here : Steps w w
  later : {u v : World} → Steps w u → Step u (some v) → Steps w v
