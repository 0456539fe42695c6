-- ===== src/FileSystem/Calls.antt =====
-- Each call of the script, and each step of a request, keeps the invariant of the files.
use capy_js.Prelude.{
  Bool-cases, ==_refl, ℕ, ◌≡◌, refl, arith, inl, inr, true, false, ◌||◌, none, some, List, [], ◌∷◌,
  ◌++◌, ◌==◌, elem, IsNodup, All, All-append, Option-cases, ap, subst, sym, ◌∙◌, map-append,
}
use capy_js.FileSystem.{
  FileOpState, Request, World, new_entry, open_file_async, with_buffer, start_read, read_file_async,
  close_file_async, states_of, is_quiet,
}
use capy_js.FileSystem.Inv.{
  Has, OkAt, Mapped, Inv, Fine, OkAt-update, absent, Mapped-update, fresh-update,
}

pub open_file_async-Inv : (cb : ℕ) (w : World) → Inv w → Inv (open_file_async cb w)
unfolding open_file_async
open_file_async-Inv cb w v =
    let a = w.next_state in
    let bare : w.states a ≡ none = v.fresh a (omega arith) in
    let others = absent w.states w.found a w.requests bare v.requests_ok in
    record {
      requests_ok = (
        rw (==_refl a) refl,
        OkAt-update w.states w.found a (some new_entry) w.requests others v.requests_ok,
      );
      apart = (others, v.apart);
      mapped = λ fd b m. elim (Bool-cases (a == b)) [
        | inl eq ↦
            let here : a ≡ b = ground (arith, eq) in
            absurd (subst (λ o. Mapped o fd) (ap w.states (sym here) ∙ bare) (v.mapped fd b m))
        | inr other ↦ rw other (v.mapped fd b m)
      ];
      fresh = λ b h. ground (arith, v.fresh b (omega arith));
      told = v.told;
    }

with_buffer-Has : (len : ℕ) (e : FileOpState) → Has (with_buffer len e).1 (with_buffer len e).0.buf
unfolding with_buffer
with_buffer-Has len e = elim (Option-cases e.buf) [
  | inl bare ↦ rw (with_buffer, bare) refl
  | inr (b, at) ↦ elim (Bool-cases (e.buf_len == len)) [
    | inl same ↦ rw (with_buffer, at, same, at) refl
    | inr other ↦ rw (with_buffer, at, other) refl
  ]
]

with_buffer-fd : (len : ℕ) (e : FileOpState) → (with_buffer len e).0.fd ≡ e.fd
unfolding with_buffer
with_buffer-fd len e = ground arith

pub start_read-Inv :
    (a len cb : ℕ) (e : FileOpState) (w : World)
    → Inv w
    → w.states a ≡ some e
    → elem a (states_of w.requests) ≡ false
    → Inv (start_read a len cb e w)
unfolding start_read
start_read-Inv a len cb e w v at quiet =
    let e' = (with_buffer len e).0 in
    record {
      requests_ok = (
        rw (==_refl a) (with_buffer-Has len e),
        OkAt-update w.states w.found a (some e') w.requests quiet v.requests_ok,
      );
      apart = (quiet, v.apart);
      mapped = Mapped-update w a e e' v at (with_buffer-fd len e);
      fresh = fresh-update w a e (some e') v at;
      told = v.told;
    }

pub read_file_async-Inv :
    (fd len cb : ℕ) (w : World) → Inv w → is_quiet fd w ≡ true → Fine (read_file_async fd len cb w)
unfolding read_file_async is_quiet
read_file_async-Inv fd len cb w v q = elim (Option-cases (w.fd_state fd)) [
  | inl unknown ↦
      rw (read_file_async, unknown)
        record {
          requests_ok = v.requests_ok;
          apart = v.apart;
          mapped = v.mapped;
          fresh = v.fresh;
          told = v.told;
        }
  | inr (a, known) ↦ elim (Option-cases (w.states a)) [
    | inl gone ↦ absurd (subst (λ o. Mapped o fd) gone (v.mapped fd a known))
    | inr (e, at) ↦
        let quiet : elem a (states_of w.requests) ≡ false = ground (arith, q, known) in
        rw (read_file_async, known, at) (start_read-Inv a len cb e w v at quiet)
  ]
]

pub close_file_async-Inv :
    (fd : ℕ) (w : World) → Inv w → is_quiet fd w ≡ true → Inv (close_file_async fd w)
unfolding close_file_async is_quiet
close_file_async-Inv fd w v q = elim (Option-cases (w.fd_state fd)) [
  | inl unknown ↦ rw (close_file_async, unknown) v
  | inr (a, known) ↦ elim (Option-cases (w.states a)) [
    | inl gone ↦ absurd (subst (λ o. Mapped o fd) gone (v.mapped fd a known))
    | inr (e, at) ↦
        let quiet : elem a (states_of w.requests) ≡ false = ground (arith, q, known) in
        rw (close_file_async, known)
          record {
            requests_ok = (rw at tt, v.requests_ok);
            apart = (quiet, v.apart);
            mapped = v.mapped;
            fresh = v.fresh;
            told = v.told;
          }
  ]
]

elem-append : (a : ℕ) (xs ys : List ℕ) → elem a (xs ++ ys) ≡ (elem a xs || elem a ys)
unfolding elem
elem-append a [] ys = refl
elem-append a (x ∷ xs) ys = ground (arith, elem-append a xs ys)

IsNodup-turned : (x : ℕ) (xs : List ℕ) → elem x xs ≡ false → IsNodup xs → IsNodup (xs ++ x ∷ [])
unfolding elem
IsNodup-turned x [] h n = (refl, tt)
IsNodup-turned x (y ∷ xs) h (m, n) =
    (ground (arith, elem-append y xs (x ∷ []), h, m), IsNodup-turned x xs (ground (arith, h)) n)

pub others_first-Inv :
    (r : Request) (rs : List Request) (w : World)
    → Inv w
    → w.requests ≡ r ∷ rs
    → Inv (record w { requests = rs ++ r ∷ [] })
others_first-Inv r rs w v e =
    let (ok, oks) = subst (All (OkAt w.states w.found)) e v.requests_ok in
    let (new, apart) = subst (λ l. IsNodup (states_of l)) e v.apart in
    record {
      requests_ok = All-append (OkAt w.states w.found) rs (r ∷ []) oks (ok, tt);
      apart =
          subst IsNodup (sym (map-append (λ q. q.state) rs (r ∷ [])))
            (IsNodup-turned r.state (states_of rs) new apart);
      mapped = v.mapped;
      fresh = v.fresh;
      told = v.told;
    }
