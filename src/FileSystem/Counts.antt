-- ===== src/FileSystem/Counts.antt =====
-- The calls that are due: every callback that is handed over is called once.
use capy_js.Prelude.{
  times, ℕ, ◌+◌, ◌≡◌, refl, arith, inl, inr, Option, none, some, List, [], ◌∷◌, ◌++◌, ◌==◌,
  if◌then◌else◌, Option-cases, subst, sym,
}
use capy_js.FileSystem.{
  FileOpState, Answer, failed, opened, bytes, closed, Op, opening, reading, closing, Request, World,
  open_file_async, start_read, read_file_async, close_file_async, fill, put_bytes, perform,
  opened_entry, open_file_async_cb, text_of, read_file_async_cb, close_file_async_cb, call_back,
  Step, opens, reads, closes, others_first, performs, calls_back, Steps, here, later,
}

abbrev pub times_called : ℕ → List (ℕ × Answer) → ℕ
times_called cb [] = 0
times_called cb ((x, ans) ∷ xs) = if cb == x then 1 + times_called cb xs else times_called cb xs

abbrev pub due : ℕ → Op → ℕ
due cb (opening x) = if cb == x then 1 else 0
due cb (reading x number len) = if cb == x then 1 else 0
due cb (closing fd) = 0

abbrev pub times_due : ℕ → List Request → ℕ
times_due cb [] = 0
times_due cb (r ∷ rs) = due cb r.op + times_due cb rs

abbrev Counted : ℕ → World → Type 0
Counted cb w =
    times cb w.asked ≡ times_called cb w.called + times_due cb w.requests + times cb w.ignored

abbrev CountedAll : ℕ → Option World → Type 0
CountedAll cb none = Unit
CountedAll cb (some w) = Counted cb w

times_due-turned :
    (cb : ℕ) (r : Request) (rs : List Request)
    → times_due cb (rs ++ r ∷ []) ≡ due cb r.op + times_due cb rs
times_due-turned cb r [] = refl
times_due-turned cb r (x ∷ rs) = grind (arith, times_due-turned cb r rs)

read_file_async-Counted :
    (cb fd len k : ℕ) (w : World) → Counted cb w → CountedAll cb (read_file_async fd len k w)
unfolding read_file_async start_read
read_file_async-Counted cb fd len k w c = elim (Option-cases (w.fd_state fd)) [
  | inl unknown ↦ rw (read_file_async, unknown) (ground (arith, c))
  | inr (a, known) ↦ elim (Option-cases (w.states a)) [
    | inl gone ↦ rw (read_file_async, known, gone) tt
    | inr (e, at) ↦ rw (read_file_async, known, at) (ground (arith, c))
  ]
]

close_file_async-Counted :
    (cb fd : ℕ) (w : World) → Counted cb w → Counted cb (close_file_async fd w)
unfolding close_file_async
close_file_async-Counted cb fd w c = elim (Option-cases (w.fd_state fd)) [
  | inl unknown ↦ rw (close_file_async, unknown) c
  | inr (a, known) ↦ rw (close_file_async, known) (omega (arith, c))
]

abbrev Keeps : World → Option World → Type 0
Keeps w none = Unit
Keeps w (some w') = (w'.asked ≡ w.asked) × (w'.called ≡ w.called) × (w'.ignored ≡ w.ignored)

put_bytes-Keeps : (a number : ℕ) (ans : Answer) (w : World) → Keeps w (put_bytes a number ans w)
unfolding put_bytes
put_bytes-Keeps a number (bytes text) w = elim (Option-cases (fill number text (w.states a))) [
  | inl gone ↦ rw (put_bytes, gone) tt
  | inr (e, fills) ↦ rw (put_bytes, fills) (refl, refl, refl)
]
put_bytes-Keeps a number (failed err) w = (refl, refl, refl)
put_bytes-Keeps a number (opened fd) w = (refl, refl, refl)
put_bytes-Keeps a number closed w = (refl, refl, refl)

opened_entry-Keeps :
    (ans : Answer) (a : ℕ) (e : FileOpState) (w : World)
    → Keeps w (some (opened_entry ans a e w)) × ((opened_entry ans a e w).requests ≡ w.requests)
unfolding opened_entry
opened_entry-Keeps (bytes text) a e w = ((refl, refl, refl), refl)
opened_entry-Keeps (failed err) a e w = ((refl, refl, refl), refl)
opened_entry-Keeps (opened fd) a e w = ((refl, refl, refl), refl)
opened_entry-Keeps closed a e w = ((refl, refl, refl), refl)

module _ (cb : ℕ) (ans : Answer) (r : Request) (rs : List Request) (w : World) (c : Counted cb w)
    (here : w.requests ≡ r ∷ rs) where
  split :
      times cb w.asked
      ≡ times_called cb w.called + (due cb r.op + times_due cb rs) + times cb w.ignored
  split = rw here at c

  perform-Counted : (op : Op) → r.op ≡ op → CountedAll cb (perform ans r rs w)
  unfolding perform
  perform-Counted (opening k) e = rw (perform, e) split
  perform-Counted (reading k number len) e = elim (Option-cases (put_bytes r.state number ans w)) [
    | inl bad ↦ rw (perform, e, bad) tt
    | inr (w', puts) ↦
        let (asks, calls, skips) = subst (Keeps w) puts (put_bytes-Keeps r.state number ans w) in
        rw (perform, e, puts, asks, calls, skips) split
  ]
  perform-Counted (closing fd) e = rw (perform, e) split

  call_back-Counted : (op : Op) → r.op ≡ op → CountedAll cb (call_back ans r rs w)
  unfolding call_back open_file_async_cb read_file_async_cb close_file_async_cb
  call_back-Counted (opening k) e = elim (Option-cases (w.states r.state)) [
    | inl gone ↦ rw (call_back, e, open_file_async_cb, gone) tt
    | inr (entry, at) ↦
        let ((asks, calls, skips), rest) =
          opened_entry-Keeps ans r.state entry (record w { requests = rs }) in
        let all = rw e at split in
        rw (call_back, e, open_file_async_cb, at, asks, calls, skips, rest) (ground (arith, all))
  ]
  call_back-Counted (reading k number len) e = elim (Option-cases (w.states r.state)) [
    | inl gone ↦ rw (call_back, e, read_file_async_cb, gone) tt
    | inr (entry, at) ↦ elim (Option-cases (text_of ans entry)) [
      | inl bad ↦ rw (call_back, e, read_file_async_cb, at, bad) tt
      | inr (text, tells) ↦
          let all = rw e at split in
          rw (call_back, e, read_file_async_cb, at, tells) (ground (arith, all))
    ]
  ]
  call_back-Counted (closing fd) e = elim (Option-cases (w.states r.state)) [
    | inl gone ↦ rw (call_back, e, close_file_async_cb, gone) tt
    | inr (entry, at) ↦
        let all = rw e at split in rw (call_back, e, close_file_async_cb, at) (omega (arith, all))
  ]

Step-Counted :
    (cb : ℕ) (w : World) (next : Option World) → Counted cb w → Step w next → CountedAll cb next
unfolding open_file_async
Step-Counted cb w next c (opens k e) = subst (CountedAll cb) (sym e) (ground (arith, c))
Step-Counted cb w next c (reads fd len k q e) =
    subst (CountedAll cb) (sym e) (read_file_async-Counted cb fd len k w c)
Step-Counted cb w next c (closes fd q e) =
    subst (CountedAll cb) (sym e) (close_file_async-Counted cb fd w c)
Step-Counted cb w next c (others_first r rs h e) =
    let all = rw h at c in
    subst (CountedAll cb) (sym e) (omega (arith, all, times_due-turned cb r rs))
Step-Counted cb w next c (performs ans r rs h n p e) =
    subst (CountedAll cb) (sym e) (perform-Counted cb ans r rs w c h r.op refl)
Step-Counted cb w next c (calls_back ans r rs h n e) =
    subst (CountedAll cb) (sym e) (call_back-Counted cb ans r rs w c h r.op refl)

pub Steps-Counted :
    (cb : ℕ) (w v : World)
    → times cb w.asked ≡ times_called cb w.called + times_due cb w.requests + times cb w.ignored
    → Steps w v
    → times cb v.asked ≡ times_called cb v.called + times_due cb v.requests + times cb v.ignored
Steps-Counted cb w v c here = c
Steps-Counted cb w v c (later {u} steps step) =
    Step-Counted cb u (some v) (Steps-Counted cb w u c steps) step
