-- ===== src/FileSystem/Requests.antt =====
-- What the pool does with a request, and the callback of the loop, keep the invariant of the files.
use capy_js.Prelude.{
  Bool-cases, ==_refl, ℕ, ◌≡◌, refl, arith, inl, inr, true, false, Option, none, some, List, ◌∷◌,
  ◌++◌, length, take, drop, ◌==◌, update, elem, IsNodup, All, take-append_exact, Option-cases, ap,
  subst, sym, ◌∙◌,
}
use capy_js.FileSystem.{
  FileOpState, Answer, failed, opened, bytes, closed, Op, opening, reading, closing, Request, World,
  fill, put_bytes, perform, opened_entry, open_file_async_cb, text_of, read_file_async_cb, erase,
  close_file_async_cb, call_back, states_of, IsPossible,
}
use capy_js.FileSystem.Inv.{
  In, Holds, Ok, OkAt, Mapped, Inv, Fine, OkAt-update, OkAt-found, told-found, Mapped-update,
  fresh-update,
}

answered-opening :
    (o : Option FileOpState) (cb : ℕ) (ans : Answer) (found : List (ℕ × Answer))
    → Ok o (opening cb) none found
    → Ok o (opening cb) (some ans) ((cb, ans) ∷ found)
answered-opening none cb ans found k = k
answered-opening (some e) cb ans found k = (k, inl refl)

answered-reading :
    (o : Option FileOpState) (cb number len err : ℕ) (found : List (ℕ × Answer))
    → Ok o (reading cb number len) none found
    → Ok o (reading cb number len) (some (failed err)) ((cb, failed err) ∷ found)
answered-reading none cb number len err found k = k
answered-reading (some e) cb number len err found k = inl refl

answered-closing :
    (o : Option FileOpState) (fd : ℕ) (result : Option Answer) (ans : Answer)
    (found : List (ℕ × Answer))
    → Ok o (closing fd) result found
    → Ok o (closing fd) (some ans) found
answered-closing none fd result ans found k = k
answered-closing (some e) fd result ans found k = tt

-- The buffer of a read that is under way is there, and takes the bytes.
filled :
    (text : List ℕ) (o : Option FileOpState) (cb number len : ℕ) (found : List (ℕ × Answer))
    → Ok o (reading cb number len) none found
    → (e e' : FileOpState) × (o ≡ some e)
      × (fill number text o ≡ some e')
      × Holds text e'.buf
      × (e'.fd ≡ e.fd)
unfolding fill
filled text none cb number len found k = absurd k
filled text (some e) cb number len found k = elim (Option-cases e.buf) [
  | inl bare ↦ absurd (rw bare at k)
  | inr (b, at) ↦
      let same : b.number ≡ number = rw at at k in
      let right : b.number == number ≡ true = ground (arith, same) in
      (
        e,
        record e { buf = some (record b { content = text ++ drop (length text) b.content }) },
        refl,
        rw (fill, at, right) refl,
        take-append_exact text (drop (length text) b.content),
        refl,
      )
]

found_opening :
    (o : Option FileOpState) (cb : ℕ) (ans : Answer) (found : List (ℕ × Answer))
    → Ok o (opening cb) (some ans) found
    → (e : FileOpState) × (o ≡ some e) × (e.fd ≡ none) × In (cb, ans) found
found_opening none cb ans found k = absurd k
found_opening (some e) cb ans found (k, i) = (e, refl, k, i)

-- A read that is done is told as it was found.
found_reading :
    (o : Option FileOpState) (cb number len : ℕ) (ans : Answer) (found : List (ℕ × Answer))
    → Ok o (reading cb number len) (some ans) found
    → (e : FileOpState) × (o ≡ some e) × (text_of ans e ≡ some ans) × In (cb, ans) found
unfolding text_of
found_reading none cb number len ans found k = absurd k
found_reading (some e) cb number len (bytes text) found (holds, i) = elim (Option-cases e.buf) [
  | inl bare ↦ absurd (rw bare at holds)
  | inr (b, at) ↦
      let same : take (length text) b.content ≡ text = rw at at holds in
      (e, refl, rw (text_of, at, same) refl, i)
]
found_reading (some e) cb number len (failed err) found i = (e, refl, refl, i)
found_reading (some e) cb number len (opened fd) found i = (e, refl, refl, i)
found_reading (some e) cb number len closed found i = (e, refl, refl, i)

found_closing :
    (o : Option FileOpState) (fd : ℕ) (result : Option Answer) (found : List (ℕ × Answer))
    → Ok o (closing fd) result found
    → (e : FileOpState) × (o ≡ some e)
found_closing none fd result found k = absurd k
found_closing (some e) fd result found k = (e, refl)

-- What is left in the table when an entry goes is of another descriptor.
erase-some :
    (o : Option ℕ) (m : ℕ → Option ℕ) (fd b : ℕ)
    → erase o m fd ≡ some b
    → (m fd ≡ some b) × (o ≡ some fd → ⊥)
erase-some none m fd b h = (h, λ e. cc)
erase-some (some x) m fd b h = elim (Bool-cases (x == fd)) [
  | inl same ↦ absurd (ground (arith, h, same))
  | inr other ↦ (rw other at h, λ e. ground (arith, e, other))
]

opened_entry-found :
    (ans : Answer) (a : ℕ) (e : FileOpState) (w : World) → (opened_entry ans a e w).found ≡ w.found
unfolding opened_entry
opened_entry-found (opened fd) a e w = refl
opened_entry-found (failed err) a e w = refl
opened_entry-found (bytes text) a e w = refl
opened_entry-found closed a e w = refl

module _ (r : Request) (rs : List Request) (w : World) (v : Inv w)
    (here : w.requests ≡ r ∷ rs) where
  ok : Ok (w.states r.state) r.op r.result w.found
  ok = (subst (All (OkAt w.states w.found)) here v.requests_ok).0

  oks : All (OkAt w.states w.found) rs
  oks = (subst (All (OkAt w.states w.found)) here v.requests_ok).1

  alone : elem r.state (states_of rs) ≡ false
  alone = (subst (λ l. IsNodup (states_of l)) here v.apart).0

  apart_rest : IsNodup (states_of rs)
  apart_rest = (subst (λ l. IsNodup (states_of l)) here v.apart).1

  pub perform-Fine :
      (ans : Answer) (op : Op)
      → r.op ≡ op
      → r.result ≡ none
      → IsPossible w op ans
      → Fine (perform ans r rs w)
  unfolding perform put_bytes
  perform-Fine ans (opening cb) e n p =
      let was : Ok (w.states r.state) (opening cb) none w.found = rw (e, n) at ok in
      rw (perform, e)
        record {
          requests_ok = (
            rw e (answered-opening (w.states r.state) cb ans w.found was),
            OkAt-found w.states w.found (cb, ans) rs oks,
          );
          apart = (alone, apart_rest);
          mapped = v.mapped;
          fresh = v.fresh;
          told = told-found w.found (cb, ans) w.called v.told;
        }
  perform-Fine (failed err) (reading cb number len) e n p =
      let was : Ok (w.states r.state) (reading cb number len) none w.found = rw (e, n) at ok in
      rw (perform, e)
        record {
          requests_ok = (
            rw e (answered-reading (w.states r.state) cb number len err w.found was),
            OkAt-found w.states w.found (cb, failed err) rs oks,
          );
          apart = (alone, apart_rest);
          mapped = v.mapped;
          fresh = v.fresh;
          told = told-found w.found (cb, failed err) w.called v.told;
        }
  perform-Fine (bytes text) (reading cb number len) e n p =
      let was : Ok (w.states r.state) (reading cb number len) none w.found = rw (e, n) at ok in
      let (e0, e1, at, fills, holds, same) =
        filled text (w.states r.state) cb number len w.found was in
      rw (perform, e, fills)
        record {
          requests_ok = (
            rw (e, ==_refl r.state) (holds, inl refl),
            OkAt-found (update w.states r.state (some e1)) w.found (cb, bytes text) rs
                (OkAt-update w.states w.found r.state (some e1) rs alone oks),
          );
          apart = (alone, apart_rest);
          mapped = Mapped-update w r.state e0 e1 v at same;
          fresh = fresh-update w r.state e0 (some e1) v at;
          told = told-found w.found (cb, bytes text) w.called v.told;
        }
  perform-Fine (opened fd) (reading cb number len) e n p = absurd p
  perform-Fine closed (reading cb number len) e n p = absurd p
  perform-Fine ans (closing fd) e n p =
      let was : Ok (w.states r.state) (closing fd) none w.found = rw (e, n) at ok in
      rw (perform, e)
        record {
          requests_ok = (rw e (answered-closing (w.states r.state) fd none ans w.found was), oks);
          apart = (alone, apart_rest);
          mapped = v.mapped;
          fresh = v.fresh;
          told = v.told;
        }

  kept-Inv : Inv (record w { requests = rs })
  kept-Inv = record {
    requests_ok = oks;
    apart = apart_rest;
    mapped = v.mapped;
    fresh = v.fresh;
    told = v.told;
  }

  opened_entry-Inv :
      (ans : Answer) (e : FileOpState)
      → w.states r.state ≡ some e
      → e.fd ≡ none
      → Inv (opened_entry ans r.state e (record w { requests = rs }))
  unfolding opened_entry
  opened_entry-Inv (opened fd) e at unlinked = record {
    requests_ok =
        OkAt-update w.states w.found r.state (some (record e { fd = some fd })) rs alone oks;
    apart = apart_rest;
    mapped = λ fd' b m. elim (Bool-cases (fd == fd')) [
      | inl eq ↦
          let same : fd ≡ fd' = ground (arith, eq) in
          let moved : r.state ≡ b = ground (arith, rw eq at m) in
          let right : r.state == b ≡ true = ground (arith, moved) in rw right (ap some same)
      | inr other ↦ elim (Bool-cases (r.state == b)) [
        | inl eq ↦
            let same : r.state ≡ b = ground (arith, eq) in
            let was : Mapped (some e) fd' =
              subst (λ o. Mapped o fd') (ap w.states (sym same) ∙ at)
                (v.mapped fd' b (rw other at m)) in
            cc (was, unlinked)
        | inr apart ↦ rw apart (v.mapped fd' b (rw other at m))
      ]
    ];
    fresh = fresh-update w r.state e (some (record e { fd = some fd })) v at;
    told = v.told;
  }
  opened_entry-Inv (failed err) e at unlinked = kept-Inv
  opened_entry-Inv (bytes text) e at unlinked = kept-Inv
  opened_entry-Inv closed e at unlinked = kept-Inv

  pub call_back-Fine :
      (ans : Answer) (op : Op) → r.op ≡ op → r.result ≡ some ans → Fine (call_back ans r rs w)
  unfolding call_back open_file_async_cb read_file_async_cb close_file_async_cb opened_entry
  call_back-Fine ans (opening cb) e n =
      let was : Ok (w.states r.state) (opening cb) (some ans) w.found = rw (e, n) at ok in
      let (e0, at, unlinked, i) = found_opening (w.states r.state) cb ans w.found was in
      let kept = opened_entry-Inv ans e0 at unlinked in
      rw (call_back, e, open_file_async_cb, at)
        record {
          requests_ok = kept.requests_ok;
          apart = kept.apart;
          mapped = kept.mapped;
          fresh = kept.fresh;
          told = (
            subst (In (cb, ans))
                (sym (opened_entry-found ans r.state e0 (record w { requests = rs }))) i,
            kept.told,
          );
        }
  call_back-Fine ans (reading cb number len) e n =
      let was : Ok (w.states r.state) (reading cb number len) (some ans) w.found =
        rw (e, n) at ok in
      let (e0, at, told, i) = found_reading (w.states r.state) cb number len ans w.found was in
      rw (call_back, e, read_file_async_cb, at, told)
        record {
          requests_ok = oks;
          apart = apart_rest;
          mapped = v.mapped;
          fresh = v.fresh;
          told = (i, v.told);
        }
  call_back-Fine ans (closing fd) e n =
      let was : Ok (w.states r.state) (closing fd) (some ans) w.found = rw (e, n) at ok in
      let (e0, at) = found_closing (w.states r.state) fd (some ans) w.found was in
      rw (call_back, e, close_file_async_cb, at)
        record {
          requests_ok = OkAt-update w.states w.found r.state none rs alone oks;
          apart = apart_rest;
          mapped = λ fd' b m.
              let (was_in, other_fd) = erase-some e0.fd w.fd_state fd' b m in
              elim (Bool-cases (r.state == b)) [
                | inl eq ↦
                    let same : r.state ≡ b = ground (arith, eq) in
                    absurd (
                      other_fd (
                        subst (λ o. Mapped o fd') (ap w.states (sym same) ∙ at)
                          (v.mapped fd' b was_in)))
                | inr other ↦ rw other (v.mapped fd' b was_in)
              ];
          fresh = fresh-update w r.state e0 none v at;
          told = v.told;
        }
