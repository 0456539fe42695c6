-- ===== src/Timers/Inv.antt =====
-- The invariant of the timers, and that each call keeps it.
use capy_js.Prelude.{
  Bool-cases, ==_refl, ℕ, ◌≤◌, ◌≡◌, refl, arith, inl, inr, Bool, true, false, not, Option, none,
  some, ◌∷◌, ◌==◌, if◌then◌else◌, update, times, Option-cases, ap, subst, sym, ◌∙◌,
}
use capy_js.Timers.{
  Timer, World, begin, start_timer, set_time_out, set_interval, uv_close, clear_interval, timer_cb,
  on_close,
}

-- The calls that a setTimeout has had, by its handle: one when it closes or is gone.
abbrev pub spent : Option Timer → ℕ
spent none = 1
spent (some t) = if t.closing then 1 else 0

-- A running interval has a timer that repeats and is not closing.
abbrev pub Repeats : Option Timer → Type 0
Repeats none = ⊥
Repeats (some t) = (t.repeat ≡ true) × (t.closing ≡ false)

abbrev pub Kind : Option Timer → Bool → Type 0
Kind none once = Unit
Kind (some t) once = t.repeat ≡ not once

pub record Inv (w : World) : Type 0 where
  pub known : (id : ℕ) → w.running id ≡ true → w.issued id ≡ true
  pub live :
      (id : ℕ)
      → w.running id ≡ true
      → (a : ℕ) × (w.registered_interval_cb id ≡ some a) × Repeats (w.handles a)
  pub apart :
      (id id' a : ℕ)
      → w.running id ≡ true
      → w.running id' ≡ true
      → w.registered_interval_cb id ≡ some a
      → w.registered_interval_cb id' ≡ some a
      → id ≡ id'
  pub kind : (a : ℕ) → Kind (w.handles a) (w.once a)
  pub count : (a : ℕ) → w.once a ≡ true → times a w.called ≡ spent (w.handles a)
  pub fresh : (a : ℕ) → w.next_handle ≤ a → w.handles a ≡ none
  pub uncalled : (a : ℕ) → w.next_handle ≤ a → times a w.called ≡ 0
  pub unmade : (a : ℕ) → w.next_handle ≤ a → w.once a ≡ false

abbrev pub Fine : Option World → Type 0
Fine none = ⊥
Fine (some w) = Inv w

pub begin-Inv : Inv begin
begin-Inv = record {
  known = λ id h. cc;
  live = λ id h. absurd (ground (arith, h));
  apart = λ id id' a h h' e e'. cc;
  kind = λ a. tt;
  count = λ a h. cc;
  fresh = λ a h. refl;
  uncalled = λ a h. refl;
  unmade = λ a h. refl;
}

pub live_at :
    (w : World) (id a : ℕ)
    → Inv w
    → w.running id ≡ true
    → w.registered_interval_cb id ≡ some a
    → Repeats (w.handles a)
live_at w id a v runs e =
    let (a', e', repeats) = v.live id runs in
    let same : a' ≡ a = cc in subst (λ b. Repeats (w.handles b)) same repeats

-- A running interval does not have the handle that is made next.
made_before :
    (w : World) (id a : ℕ)
    → Inv w
    → w.running id ≡ true
    → w.registered_interval_cb id ≡ some a
    → w.next_handle == a ≡ false
made_before w id a v runs e = elim (Bool-cases (w.next_handle == a)) [
  | inl here ↦
      let same : w.next_handle ≡ a = ground (arith, here) in
      let gone : w.handles a ≡ none = v.fresh a (omega (arith, same)) in
      absurd (subst Repeats gone (live_at w id a v runs e))
  | inr other ↦ other
]

-- A change of a handle that no running interval has.
live_kept :
    (w : World) (b : ℕ) (o : Option Timer)
    → Inv w
    → ((id a : ℕ) → w.running id ≡ true → w.registered_interval_cb id ≡ some a → b == a ≡ false)
    → (id : ℕ) → w.running id ≡ true
    → (a : ℕ) × (w.registered_interval_cb id ≡ some a) × Repeats (update w.handles b o a)
live_kept w b o v apart id runs =
    let (a, e, repeats) = v.live id runs in
    let other = apart id a runs e in (a, e, rw other repeats)

Kind-kept :
    (w : World) (b : ℕ) (o : Option Timer)
    → Inv w
    → Kind o (w.once b)
    → (a : ℕ) → Kind (update w.handles b o a) (w.once a)
Kind-kept w b o v k a = elim (Bool-cases (b == a)) [
  | inl here ↦
      let same : b ≡ a = ground (arith, here) in rw here (subst (λ c. Kind o (w.once c)) same k)
  | inr other ↦ rw other (v.kind a)
]

pub set_time_out-Inv : (cb : ℕ) (w : World) → Inv w → Inv (set_time_out cb w)
unfolding set_time_out start_timer
set_time_out-Inv cb w v =
    let n = w.next_handle in
    let none_yet = v.uncalled n (omega arith) in
    record {
      known = v.known;
      live = live_kept w n _ v (λ id a. made_before w id a v);
      apart = v.apart;
      kind = λ a. elim (Bool-cases (n == a)) [
        | inl here ↦ rw here refl
        | inr other ↦ rw other (v.kind a)
      ];
      count = λ a o. elim (Bool-cases (n == a)) [
        | inl here ↦
            let same : n ≡ a = ground (arith, here) in
            rw here (ap (λ b. times b w.called) (sym same) ∙ none_yet)
        | inr other ↦ rw other (v.count a (rw other at o))
      ];
      fresh = λ a h. ground (arith, v.fresh a (omega arith));
      uncalled = λ a h. v.uncalled a (omega arith);
      unmade = λ a h. ground (arith, v.unmade a (omega arith));
    }

-- The timer that is made next is of no running interval.
not_next :
    (w : World) (id a : ℕ)
    → Inv w
    → w.running id ≡ true
    → w.registered_interval_cb id ≡ some a
    → some w.next_handle ≡ some a
    → ⊥
not_next w id a v runs e next =
    let other = made_before w id a v runs e in
    let same : w.next_handle ≡ a = cc in ground (arith, other, same)

pub set_interval-Inv :
    (cb id : ℕ) (w : World) → Inv w → w.issued id ≡ false → Inv (set_interval cb id w)
unfolding set_interval start_timer
set_interval-Inv cb id w v new =
    let n = w.next_handle in
    let unmade = v.unmade n (omega arith) in
    record {
      known = λ j runs. elim (Bool-cases (id == j)) [
        | inl here ↦ rw here refl
        | inr other ↦ rw other (v.known j (rw other at runs))
      ];
      live = λ j runs. elim (Bool-cases (id == j)) [
        | inl here ↦ (n, rw here refl, rw (==_refl n) (refl, refl))
        | inr other ↦
            let (a, e, repeats) =
              live_kept w n _ v (λ i b. made_before w i b v) j (rw other at runs) in
            (a, rw other e, repeats)
      ];
      apart = λ j j' a r r' e e'. elim (Bool-cases (id == j)) [
        | inl here ↦ elim (Bool-cases (id == j')) [
          | inl here' ↦ ground (arith, here, here')
          | inr other' ↦
              absurd (not_next w j' a v (rw other' at r') (rw other' at e') (rw here at e))
        ]
        | inr other ↦ elim (Bool-cases (id == j')) [
          | inl here' ↦ absurd (not_next w j a v (rw other at r) (rw other at e) (rw here' at e'))
          | inr other' ↦
              v.apart j j' a (rw other at r) (rw other' at r') (rw other at e) (rw other' at e')
        ]
      ];
      kind = Kind-kept w n _ v (rw unmade refl);
      count = λ a o. elim (Bool-cases (n == a)) [
        | inl here ↦ let same : n ≡ a = ground (arith, here) in absurd (cc (o, unmade, same))
        | inr other ↦ rw other (v.count a o)
      ];
      fresh = λ a h. ground (arith, v.fresh a (omega arith));
      uncalled = λ a h. v.uncalled a (omega arith);
      unmade = λ a h. v.unmade a (omega arith);
    }

-- A timer that closes or does not repeat is of no running interval.
pub not_running :
    (w : World) (b : ℕ) (t : Timer)
    → Inv w
    → w.handles b ≡ some t
    → (Repeats (some t) → ⊥)
    → (id a : ℕ) → w.running id ≡ true
    → w.registered_interval_cb id ≡ some a
    → b == a ≡ false
not_running w b t v at never id a runs e = elim (Bool-cases (b == a)) [
  | inl here ↦
      let same : a ≡ b = ground (arith, here) in
      absurd (never (subst Repeats (ap w.handles same ∙ at) (live_at w id a v runs e)))
  | inr other ↦ other
]

fresh_kept :
    (w : World) (b : ℕ) (t : Timer) (o : Option Timer)
    → Inv w
    → w.handles b ≡ some t
    → (a : ℕ) → w.next_handle ≤ a
    → update w.handles b o a ≡ none
fresh_kept w b t o v at a h = elim (Bool-cases (b == a)) [
  | inl here ↦ let same : b ≡ a = ground (arith, here) in cc (at, v.fresh a h)
  | inr other ↦ rw other (v.fresh a h)
]

pub on_close-Inv :
    (a : ℕ) (t : Timer) (w : World)
    → Inv w
    → w.handles a ≡ some t
    → t.closing ≡ true
    → Inv (on_close a w)
unfolding on_close
on_close-Inv a t w v at closing = record {
  known = v.known;
  live = live_kept w a none v (not_running w a t v at (λ (r, c). cc));
  apart = v.apart;
  kind = Kind-kept w a none v tt;
  count = λ b o. elim (Bool-cases (a == b)) [
    | inl here ↦
        let same : a ≡ b = ground (arith, here) in
        rw here
          (v.count b o ∙ (ap (λ c. spent (w.handles c)) (sym same) ∙ ap spent at ∙ rw closing refl))
    | inr other ↦ rw other (v.count b o)
  ];
  fresh = fresh_kept w a t none v at;
  uncalled = v.uncalled;
  unmade = v.unmade;
}

kind_at : (w : World) (a : ℕ) (t : Timer) → Inv w → w.handles a ≡ some t → t.repeat ≡ not (w.once a)
kind_at w a t v at = subst (λ o. Kind o (w.once a)) at (v.kind a)

-- Another running interval has another handle.
pub other_handle :
    (w : World) (id j a b : ℕ)
    → Inv w
    → w.running id ≡ true
    → w.registered_interval_cb id ≡ some a
    → id == j ≡ false
    → w.running j ≡ true
    → w.registered_interval_cb j ≡ some b
    → a == b ≡ false
other_handle w id j a b v runs e other runs' e' = elim (Bool-cases (a == b)) [
  | inl here ↦
      let same : b ≡ a = ground (arith, here) in
      let twice : id ≡ j = v.apart id j a runs runs' e (e' ∙ ap some same) in
      ground (arith, other, twice)
  | inr apart ↦ apart
]

stops :
    (id a : ℕ) (t : Timer) (w : World)
    → Inv w
    → w.running id ≡ true
    → w.registered_interval_cb id ≡ some a
    → w.handles a ≡ some t
    → t.repeat ≡ true
    → Inv (record w {
      running = update w.running id false;
      handles = update w.handles a (some (record t { closing = true }));
    })
stops id a t w v runs e at repeats = record {
  known = λ j r. elim (Bool-cases (id == j)) [
    | inl here ↦ absurd (cc (rw here at r))
    | inr other ↦ v.known j (rw other at r)
  ];
  live = λ j r. elim (Bool-cases (id == j)) [
    | inl here ↦ absurd (cc (rw here at r))
    | inr other ↦
        let (b, e', kept) = v.live j (rw other at r) in
        let apart = other_handle w id j a b v runs e other (rw other at r) e' in
        (b, e', rw apart kept)
  ];
  apart = λ j j' b r r' k k'. elim (Bool-cases (id == j)) [
    | inl here ↦ absurd (cc (rw here at r))
    | inr other ↦ elim (Bool-cases (id == j')) [
      | inl here' ↦ absurd (cc (rw here' at r'))
      | inr other' ↦ v.apart j j' b (rw other at r) (rw other' at r') k k'
    ]
  ];
  kind = Kind-kept w a (some (record t { closing = true })) v (kind_at w a t v at);
  count = λ b o. elim (Bool-cases (a == b)) [
    | inl here ↦
        let same : a ≡ b = ground (arith, here) in
        let once : w.once a ≡ true = ap w.once same ∙ o in
        absurd (ground (arith, kind_at w a t v at, once, repeats))
    | inr other ↦ rw other (v.count b o)
  ];
  fresh = fresh_kept w a t (some (record t { closing = true })) v at;
  uncalled = v.uncalled;
  unmade = v.unmade;
}

pub clear_interval-Inv :
    (id : ℕ) (w : World) → Inv w → w.running id ≡ true → Fine (clear_interval id w)
unfolding clear_interval uv_close
clear_interval-Inv id w v runs =
    let (a, e, kept) = v.live id runs in
    elim (Option-cases (w.handles a)) [
      | inl gone ↦ absurd (subst Repeats gone kept)
      | inr (t, at) ↦
          let (repeats, closing) = subst Repeats at kept in
          rw (clear_interval, e, uv_close, at, closing) (stops id a t w v runs e at repeats)
    ]

timer_made :
    (w : World) (a b : ℕ) (t : Timer)
    → Inv w
    → w.handles a ≡ some t
    → w.next_handle ≤ b
    → b == a ≡ false
timer_made w a b t v at h = elim (Bool-cases (b == a)) [
  | inl here ↦
      let same : b ≡ a = ground (arith, here) in cc (at, v.fresh a (omega (arith, h, same)))
  | inr other ↦ other
]

called_again :
    (a : ℕ) (t : Timer) (w : World)
    → Inv w
    → w.handles a ≡ some t
    → t.repeat ≡ true
    → Inv (record w { called = a ∷ w.called })
called_again a t w v at repeats = record {
  known = v.known;
  live = v.live;
  apart = v.apart;
  kind = v.kind;
  count = λ b o. elim (Bool-cases (b == a)) [
    | inl here ↦
        let same : a ≡ b = ground (arith, here) in
        let once : w.once a ≡ true = ap w.once same ∙ o in
        absurd (ground (arith, kind_at w a t v at, once, repeats))
    | inr other ↦ rw other (v.count b o)
  ];
  fresh = v.fresh;
  uncalled = λ b h. rw (timer_made w a b t v at h) (v.uncalled b h);
  unmade = v.unmade;
}

called_last :
    (a : ℕ) (t : Timer) (w : World)
    → Inv w
    → w.handles a ≡ some t
    → t.repeat ≡ false
    → t.closing ≡ false
    → Inv (record w {
      called = a ∷ w.called;
      handles = update w.handles a (some (record t { closing = true }));
    })
called_last a t w v at once open_ = record {
  known = v.known;
  live = live_kept w a _ v (not_running w a t v at (λ (r, c). cc));
  apart = v.apart;
  kind = Kind-kept w a _ v (kind_at w a t v at);
  count = λ b o. elim (Bool-cases (a == b)) [
    | inl here ↦
        let same : a ≡ b = ground (arith, here) in
        let back : b == a ≡ true = ground (arith, same) in
        let none_yet : times b w.called ≡ 0 =
          v.count b o ∙ ap (λ c. spent (w.handles c)) (sym same) ∙ ap spent at ∙ rw open_ refl in
        rw (here, back, none_yet) refl
    | inr other ↦
        let back : b == a ≡ false = ground (arith, other) in rw (other, back) (v.count b o)
  ];
  fresh = fresh_kept w a t _ v at;
  uncalled = λ b h. rw (timer_made w a b t v at h) (v.uncalled b h);
  unmade = v.unmade;
}

pub timer_cb-Inv :
    (a : ℕ) (t : Timer) (w : World)
    → Inv w
    → w.handles a ≡ some t
    → t.closing ≡ false
    → Fine (timer_cb a w)
unfolding timer_cb uv_close
timer_cb-Inv a t w v at open_ = elim (Bool-cases t.repeat) [
  | inl repeats ↦ rw (timer_cb, at, repeats) (called_again a t w v at repeats)
  | inr once ↦ rw (timer_cb, at, once, uv_close, at, open_) (called_last a t w v at once open_)
]
