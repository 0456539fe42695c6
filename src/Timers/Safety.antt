-- ===== src/Timers/Safety.antt =====
-- What the timers of a script do, while the generator gives no id twice and the script clears an
-- interval once.
use capy_js.Prelude.{
  Bool-cases, ==_refl, leb, ℕ, ◌<◌, ◌≡◌, refl, arith, inl, inr, Bool, true, false, Option, none,
  some, ◌∷◌, ◌==◌, times, Option-cases, ap, subst, sym, ◌∙◌,
}
use capy_js.Timers.{
  Timer, World, begin, start_timer, set_time_out, set_interval, uv_close, clear_interval, timer_cb,
  on_close, Step, times_out, repeats, clears, fires, closes, Steps, here, later,
}
use capy_js.Timers.Inv.{
  spent, Inv, Fine, begin-Inv, set_time_out-Inv, set_interval-Inv, on_close-Inv, clear_interval-Inv,
  timer_cb-Inv,
}

Step-Fine : (w : World) (next : Option World) → Inv w → Step w next → Fine next
Step-Fine w next v (times_out cb e) = subst Fine (sym e) (set_time_out-Inv cb w v)
Step-Fine w next v (repeats cb id new e) = subst Fine (sym e) (set_interval-Inv cb id w v new)
Step-Fine w next v (clears id runs e) = subst Fine (sym e) (clear_interval-Inv id w v runs)
Step-Fine w next v (fires a t at runs e) = subst Fine (sym e) (timer_cb-Inv a t w v at runs)
Step-Fine w next v (closes a t at ends e) = subst Fine (sym e) (on_close-Inv a t w v at ends)

Steps-Inv : (w v : World) → Inv w → Steps w v → Inv v
Steps-Inv w v i here = i
Steps-Inv w v i (later {u} steps step) = Step-Fine u (some v) (Steps-Inv w u i steps) step

-- While the generator gives no id twice, and the script gives each id that it has got to clearInterval
-- at most once, no step uses a handle that is null or freed, or closes one that closes already.
pub timers_never_fault : (w : World) → Steps begin w → Step w none → ⊥
timers_never_fault w steps step = Step-Fine w none (Steps-Inv begin w begin-Inv steps) step

-- While the generator gives no id twice and the script clears an interval once: the callback of a
-- setTimeout has been called once when its timer is closing or freed, and not at all before.
pub timeout_called_once :
    (w : World) (a : ℕ) → Steps begin w → w.once a ≡ true → times a w.called ≡ spent (w.handles a)
timeout_called_once w a steps once = (Steps-Inv begin w begin-Inv steps).count a once

-- A timer that is closing or freed, and has been called `n` times.
record Done (a n : ℕ) (w : World) : Type 0 where
  made : a < w.next_handle
  over : spent (w.handles a) ≡ 1
  calls : times a w.called ≡ n

abbrev DoneAll : ℕ → ℕ → Option World → Type 0
DoneAll a n none = Unit
DoneAll a n (some w) = Done a n w

uv_close-Done : (a n b : ℕ) (w : World) → Done a n w → DoneAll a n (uv_close b w)
unfolding uv_close
uv_close-Done a n b w d = elim (Option-cases (w.handles b)) [
  | inl gone ↦ rw (uv_close, gone) tt
  | inr (t, at) ↦ elim (Bool-cases t.closing) [
    | inl closing ↦ rw (uv_close, at, closing) tt
    | inr runs ↦
        rw (uv_close, at, runs)
          record {
            made = d.made;
            over = elim (Bool-cases (b == a)) [
              | inl same ↦ rw same refl
              | inr other ↦ rw other d.over
            ];
            calls = d.calls;
          }
  ]
]

start_timer-Done :
    (a n cb : ℕ) (repeat : Bool) (w : World) → Done a n w → Done a n (start_timer cb repeat w)
unfolding start_timer
start_timer-Done a n cb repeat w d =
    let made = d.made in
    let other : w.next_handle == a ≡ false = ground (arith, made) in
    record { made = omega (arith, made); over = rw other d.over; calls = d.calls }

-- A timer that runs is another one.
another_one :
    (a n b : ℕ) (t : Timer) (w : World)
    → Done a n w
    → w.handles b ≡ some t
    → t.closing ≡ false
    → a == b ≡ false
another_one a n b t w d at runs = elim (Bool-cases (a == b)) [
  | inl same ↦
      let equal : a ≡ b = ground (arith, same) in
      let live : spent (w.handles a) ≡ 0 =
        ap (λ c. spent (w.handles c)) equal ∙ ap spent at ∙ rw runs refl in
      absurd (omega (arith, live, d.over))
  | inr other ↦ other
]

timer_cb-Done :
    (a n b : ℕ) (t : Timer) (w : World)
    → Done a n w
    → w.handles b ≡ some t
    → t.closing ≡ false
    → DoneAll a n (timer_cb b w)
unfolding timer_cb
timer_cb-Done a n b t w d at runs =
    let other = another_one a n b t w d at runs in
    let d' : Done a n (record w { called = b ∷ w.called }) = record {
      made = d.made;
      over = d.over;
      calls = rw other d.calls;
    } in
    elim (Bool-cases t.repeat) [
      | inl again ↦ rw (timer_cb, at, again) d'
      | inr last ↦ rw (timer_cb, at, last) (uv_close-Done a n b _ d')
    ]

Step-Done :
    (a n : ℕ) (w : World) (next : Option World) → Done a n w → Step w next → DoneAll a n next
unfolding set_time_out set_interval start_timer clear_interval timer_cb on_close
Step-Done a n w next d (times_out cb e) = subst (DoneAll a n) (sym e) (
    let d' = start_timer-Done a n cb false w d in
    record { made = d'.made; over = d'.over; calls = d'.calls })
Step-Done a n w next d (repeats cb id new e) = subst (DoneAll a n) (sym e) (
    let d' = start_timer-Done a n cb true w d in
    record { made = d'.made; over = d'.over; calls = d'.calls })
Step-Done a n w next d (clears id runs e) = elim (Option-cases (w.registered_interval_cb id)) [
  | inl null ↦ subst (DoneAll a n) (sym e) (rw (clear_interval, null) tt)
  | inr (b, at) ↦ subst (DoneAll a n) (sym e) (
      rw (clear_interval, at)
        (uv_close-Done a n b _ record { made = d.made; over = d.over; calls = d.calls }))
]
Step-Done a n w next d (fires b t at runs e) =
    subst (DoneAll a n) (sym e) (timer_cb-Done a n b t w d at runs)
Step-Done a n w next d (closes b t at ends e) = subst (DoneAll a n) (sym e) record {
  made = d.made;
  over = elim (Bool-cases (b == a)) [ inl same ↦ rw same refl | inr other ↦ rw other d.over ];
  calls = d.calls;
}

Steps-Done : (a n : ℕ) (w v : World) → Done a n w → Steps w v → Done a n v
Steps-Done a n w v d here = d
Steps-Done a n w v d (later {u} steps step) =
    Step-Done a n u (some v) (Steps-Done a n w u d steps) step

cleared :
    (id a : ℕ) (w : World)
    → Inv w
    → w.registered_interval_cb id ≡ some a
    → DoneAll a (times a w.called) (clear_interval id w)
unfolding clear_interval uv_close
cleared id a w i e = elim (Option-cases (w.handles a)) [
  | inl gone ↦ rw (clear_interval, e, uv_close, gone) tt
  | inr (t, at) ↦ elim (Bool-cases t.closing) [
    | inl closing ↦ rw (clear_interval, e, uv_close, at, closing) tt
    | inr runs ↦
        rw (clear_interval, e, uv_close, at, runs)
          record {
            made = elim (Bool-cases (leb w.next_handle a)) [
              | inl above ↦ let unmade = i.fresh a (ground (arith, above)) in cc (at, unmade)
              | inr below ↦ ground (arith, below)
            ];
            over = rw (==_refl a) refl;
            calls = refl;
          }
  ]
]

-- While the generator gives no id twice and the script clears an interval once: from a call of
-- clearInterval that does not fault on, the callback of the timer that the id stands for is not called
-- again, whatever the script and the loop do.
pub cleared_is_silent :
    (w v u : World) (id a : ℕ)
    → Steps begin w
    → w.registered_interval_cb id ≡ some a
    → clear_interval id w ≡ some v
    → Steps v u
    → times a u.called ≡ times a w.called
cleared_is_silent w v u id a steps e now after =
    (Steps-Done a (times a w.called) v u
      (subst (DoneAll a (times a w.called)) now
        (cleared id a w (Steps-Inv begin w begin-Inv steps) e))
      after).calls
