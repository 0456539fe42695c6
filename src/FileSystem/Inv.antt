-- ===== src/FileSystem/Inv.antt =====
-- The invariant of the files of a script that uses each descriptor for one request at a time.
use capy_js.Prelude.{
  Bool-cases, ℕ, ◌≤◌, ◌≡◌, refl, arith, ◌⊎◌, inl, inr, Bool, false, Option, none, some, List, [],
  ◌∷◌, length, take, ◌==◌, update, elem, IsNodup, All, ap, subst, sym, ◌∙◌,
}
use capy_js.FileSystem.{
  Buf, FileOpState, Answer, failed, opened, bytes, closed, Op, opening, reading, closing, Request,
  World, begin, states_of,
}

abbrev pub In : ℕ × Answer → List (ℕ × Answer) → Type 0
In c [] = ⊥
In c (x ∷ xs) = (c ≡ x) ⊎ In c xs

abbrev pub Has : ℕ → Option Buf → Type 0
Has number none = ⊥
Has number (some b) = b.number ≡ number

abbrev pub Holds : List ℕ → Option Buf → Type 0
Holds found none = ⊥
Holds found (some b) = take (length found) b.content ≡ found

-- A request finds its entry, with the buffer that it was made with; once it is done, the buffer starts
-- with what was read, and the answer is the one found.
abbrev pub Ok : Option FileOpState → Op → Option Answer → List (ℕ × Answer) → Type 0
Ok none op result found = ⊥
Ok (some e) (opening cb) none found = e.fd ≡ none
Ok (some e) (opening cb) (some ans) found = (e.fd ≡ none) × In (cb, ans) found
Ok (some e) (reading cb number len) none found = Has number e.buf
Ok (some e) (reading cb number len) (some (bytes text)) found =
    Holds text e.buf × In (cb, bytes text) found
Ok (some e) (reading cb number len) (some (failed err)) found = In (cb, failed err) found
Ok (some e) (reading cb number len) (some (opened fd)) found = In (cb, opened fd) found
Ok (some e) (reading cb number len) (some closed) found = In (cb, closed) found
Ok (some e) (closing fd) result found = Unit

abbrev pub OkAt : (ℕ → Option FileOpState) → List (ℕ × Answer) → Request → Type 0
OkAt states found r = Ok (states r.state) r.op r.result found

abbrev pub Mapped : Option FileOpState → ℕ → Type 0
Mapped none fd = ⊥
Mapped (some e) fd = e.fd ≡ some fd

pub record Inv (w : World) : Type 0 where
  pub requests_ok : All (OkAt w.states w.found) w.requests
  pub apart : IsNodup (states_of w.requests)
  pub mapped : (fd a : ℕ) → w.fd_state fd ≡ some a → Mapped (w.states a) fd
  pub fresh : (a : ℕ) → w.next_state ≤ a → w.states a ≡ none
  pub told : All (λ c. In c w.found) w.called

abbrev pub Fine : Option World → Type 0
Fine none = ⊥
Fine (some w) = Inv w

pub begin-Inv : (os_fds : ℕ → Bool) → Inv (begin os_fds)
begin-Inv os_fds = record {
  requests_ok = tt;
  apart = tt;
  mapped = λ fd a e. cc;
  fresh = λ a h. refl;
  told = tt;
}

-- A change of an entry leaves the requests of the others as they are.
pub OkAt-update :
    (states : ℕ → Option FileOpState) (found : List (ℕ × Answer)) (a : ℕ) (e : Option FileOpState)
    (rs : List Request)
    → elem a (states_of rs) ≡ false
    → All (OkAt states found) rs
    → All (OkAt (update states a e) found) rs
unfolding elem
OkAt-update states found a e [] h k = tt
OkAt-update states found a e (r ∷ rs) h (k, ks) = elim (Bool-cases (a == r.state)) [
  | inl same ↦ cc
  | inr other ↦ (rw other k, OkAt-update states found a e rs (rw other at h) ks)
]

pub absent :
    (states : ℕ → Option FileOpState) (found : List (ℕ × Answer)) (a : ℕ) (rs : List Request)
    → states a ≡ none
    → All (OkAt states found) rs
    → elem a (states_of rs) ≡ false
unfolding elem
absent states found a [] e k = refl
absent states found a (r ∷ rs) e (k, ks) = elim (Bool-cases (a == r.state)) [
  | inl same ↦
      let at : a ≡ r.state = ground (arith, same) in
      absurd (subst (λ o. Ok o r.op r.result found) (ap states (sym at) ∙ e) k)
  | inr other ↦ rw other (absent states found a rs e ks)
]

-- An answer that is found stays so.
pub Ok-found :
    (o : Option FileOpState) (op : Op) (result : Option Answer) (found : List (ℕ × Answer))
    (c : ℕ × Answer)
    → Ok o op result found
    → Ok o op result (c ∷ found)
Ok-found none op result found c k = k
Ok-found (some e) (opening cb) none found c k = k
Ok-found (some e) (opening cb) (some ans) found c (k, i) = (k, inr i)
Ok-found (some e) (reading cb number len) none found c k = k
Ok-found (some e) (reading cb number len) (some (bytes text)) found c (k, i) = (k, inr i)
Ok-found (some e) (reading cb number len) (some (failed err)) found c i = inr i
Ok-found (some e) (reading cb number len) (some (opened fd)) found c i = inr i
Ok-found (some e) (reading cb number len) (some closed) found c i = inr i
Ok-found (some e) (closing fd) result found c k = k

pub OkAt-found :
    (states : ℕ → Option FileOpState) (found : List (ℕ × Answer)) (c : ℕ × Answer)
    (rs : List Request)
    → All (OkAt states found) rs
    → All (OkAt states (c ∷ found)) rs
OkAt-found states found c [] h = tt
OkAt-found states found c (r ∷ rs) (k, ks) =
    (Ok-found (states r.state) r.op r.result found c k, OkAt-found states found c rs ks)

pub told-found :
    (found : List (ℕ × Answer)) (c : ℕ × Answer) (cs : List (ℕ × Answer))
    → All (λ d. In d found) cs
    → All (λ d. In d (c ∷ found)) cs
told-found found c [] h = tt
told-found found c (d ∷ cs) (i, h) = (inr i, told-found found c cs h)

-- An entry that changes and keeps its descriptor.
pub Mapped-update :
    (w : World) (a : ℕ) (e e' : FileOpState)
    → Inv w
    → w.states a ≡ some e
    → e'.fd ≡ e.fd
    → (fd b : ℕ) → w.fd_state fd ≡ some b
    → Mapped (update w.states a (some e') b) fd
Mapped-update w a e e' v at same fd b m = elim (Bool-cases (a == b)) [
  | inl eq ↦
      let here : a ≡ b = ground (arith, eq) in
      let was : Mapped (some e) fd =
        subst (λ o. Mapped o fd) (ap w.states (sym here) ∙ at) (v.mapped fd b m) in
      rw eq (same ∙ was)
  | inr other ↦ rw other (v.mapped fd b m)
]

pub fresh-update :
    (w : World) (a : ℕ) (e : FileOpState) (o : Option FileOpState)
    → Inv w
    → w.states a ≡ some e
    → (b : ℕ) → w.next_state ≤ b
    → update w.states a o b ≡ none
fresh-update w a e o v at b h = elim (Bool-cases (a == b)) [
  | inl eq ↦ let here : a ≡ b = ground (arith, eq) in cc (at, v.fresh a (omega arith))
  | inr other ↦ rw other (v.fresh b h)
]
