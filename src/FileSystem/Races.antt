-- ===== src/FileSystem/Races.antt =====
-- Orders of the requests of src/builtins/fs.cc in which the table of the descriptors goes wrong.
use capy_js.Prelude.{
  ==_refl, ℕ, ◌≡◌, refl, inl, Bool, true, false, Option, none, some, [], ◌∷◌, update, elem, ap, sym,
}
use capy_js.FileSystem.{
  FileOpState, Answer, opened, closed, Op, opening, closing, Request, World, begin, new_entry,
  open_file_async, read_file_async, close_file_async, perform, opened_entry, open_file_async_cb,
  close_file_async_cb, call_back, is_quiet, opens, closes, performs, calls_back, Steps, here, later,
}
use capy_js.FileSystem.Inv.{In}

abbrev open_entry : ℕ → FileOpState
open_entry fd = record new_entry { fd = some fd }

abbrev request : ℕ → Op → Option Answer → Request
request a op result = record { state = a; op = op; result = result }

module _ (os_fds : ℕ → Bool) (fd first second : ℕ) (new : os_fds fd ≡ false) where
  abbrev with_first : World
  with_first = record (begin os_fds) {
    states = update (update (λ a. none) 0 (some new_entry)) 0 (some (open_entry fd));
    next_state = 1;
    fd_state = update (λ a. none) fd (some 0);
    os_fds = update os_fds fd true;
    asked = first ∷ [];
    found = (first, opened fd) ∷ [];
    called = (first, opened fd) ∷ [];
  }

  with_first_run : Steps (begin os_fds) with_first
  unfolding open_file_async perform call_back open_file_async_cb opened_entry
  with_first_run =
      later
        (later (later here (opens first refl))
          (performs (opened fd) (request 0 (opening first) none) [] refl refl new refl))
        (calls_back (opened fd) (request 0 (opening first) (some (opened fd))) [] refl refl refl)

  abbrev closing_first : World
  closing_first = record with_first { requests = request 0 (closing fd) none ∷ [] }

  close_asked : close_file_async fd with_first ≡ closing_first
  unfolding close_file_async
  close_asked = rw (close_file_async, ==_refl fd) refl

  quiet : is_quiet fd with_first ≡ true
  unfolding is_quiet elem
  quiet = rw (is_quiet, ==_refl fd) refl

  abbrev both_asked : World
  both_asked = record closing_first {
    states = update closing_first.states 1 (some new_entry);
    next_state = 2;
    os_fds = update closing_first.os_fds fd false;
    requests = request 1 (opening second) none ∷ request 0 (closing fd) (some closed) ∷ [];
    asked = second ∷ first ∷ [];
  }

  both_asked_run : Steps (begin os_fds) both_asked
  unfolding open_file_async perform
  both_asked_run =
      later
        (later (later with_first_run (closes fd quiet (ap some (sym close_asked))))
          (performs closed (request 0 (closing fd) none) [] refl refl tt refl))
        (opens second refl)

  abbrev both_open : World
  both_open = record both_asked {
    states = update both_asked.states 1 (some (open_entry fd));
    fd_state = update both_asked.fd_state fd (some 1);
    os_fds = update both_asked.os_fds fd true;
    requests = request 0 (closing fd) (some closed) ∷ [];
    found = (second, opened fd) ∷ (first, opened fd) ∷ [];
    called = (second, opened fd) ∷ (first, opened fd) ∷ [];
  }

  both_open_run : Steps (begin os_fds) both_open
  unfolding perform call_back open_file_async_cb opened_entry
  both_open_run =
      let others = request 0 (closing fd) (some closed) ∷ [] in
      let free : both_asked.os_fds fd ≡ false = rw (==_refl fd) refl in
      later
        (later both_asked_run
          (performs (opened fd) (request 1 (opening second) none) others refl refl free refl))
        (calls_back (opened fd) (request 1 (opening second) (some (opened fd))) others refl refl
          refl)

  abbrev forgotten : World
  forgotten = record both_open {
    states = update both_open.states 0 none;
    fd_state = update both_open.fd_state fd none;
    requests = [];
  }

  forgotten_run : Steps (begin os_fds) forgotten
  unfolding call_back close_file_async_cb
  forgotten_run =
      later both_open_run
        (calls_back closed (request 0 (closing fd) (some closed)) [] refl refl refl)

  -- There is a run in which the pool closes a descriptor and opens another file, which the operating
  -- system gives the same number, and the loop calls back the opening before the closing: in the end no
  -- request is left, the second file is open and its callback has been told the descriptor, but the
  -- callback of the closing has taken the new entry out of the table, so that reading it makes no
  -- request and its callback is never called, and closing it does nothing: the file stays open.
  pub late_close_forgets_new_file :
      (w : World) × Steps (begin os_fds) w
      × (w.requests ≡ [])
      × (w.os_fds fd ≡ true)
      × In (second, opened fd) w.called
      × ((buf_len cb : ℕ)
          → read_file_async fd buf_len cb w
            ≡ some (record w { asked = cb ∷ w.asked; ignored = cb ∷ w.ignored }))
      × (close_file_async fd w ≡ w)
  unfolding read_file_async close_file_async
  late_close_forgets_new_file =
      let gone : forgotten.fd_state fd ≡ none = rw (==_refl fd) refl in
      (
        forgotten,
        forgotten_run,
        refl,
        rw (==_refl fd) refl,
        inl refl,
        λ buf_len cb. rw (read_file_async, gone) refl,
        rw (close_file_async, gone) refl,
      )
