-- ===== src/InfWorker/Streams.antt =====
-- The results in the queue: the tokens of a job stand together, before its last result.
use capy_js.Prelude.{ℕ, ◌≡◌, ◌≢◌, refl, ap, sym, subst, arith, ◌⊎◌, inl, inr, Option, none, some}
use capy_js.Prelude.{true, false, List, [], ◌∷◌, ◌++◌, map, ==_refl, Bool-cases}
use capy_js.Semaphore.{Semaphore}
use capy_js.Spsc.Refine.{contents}
use capy_js.Spsc.Cases.{push_accepted, push_refused, pop_given, pop-none}
use capy_js.InfWorker.{
  InfResult, finished, go_on, after, error_result, done_result, closed, erase, free_results, World,
  counted_down, Step, enqueue_ok, enqueue_full, run_take, run_leave, run_fails, run_starts,
  run_sample, run_push, run_spin, run_ring, run_decoded, run_undecoded, ready_start, ready_pop,
  ready_next, ready_end, stop_begin, stop_within, stop_end,
}
use capy_js.InfWorker.Ends.{owner, sender, ends, in_hand, sampled}
use capy_js.InfWorker.Inv.{Live}

-- The job of the next result, in the queue or still to come.
abbrev pub next_owner : List InfResult → List (ℕ × ℕ) → Option (ℕ × ℕ)
next_owner [] [] = none
next_owner [] (o ∷ os) = some o
next_owner (r ∷ rs) os = some (sender r)

abbrev pub IsStream : List InfResult → List (ℕ × ℕ) → Type 0
IsStream [] os = Unit
IsStream (r ∷ rs) os = ((r.is_done ≡ true) ⊎ (next_owner rs os ≡ some (sender r))) × IsStream rs os

-- A thread without a job may take any.
IsStream-taken : (rs : List InfResult) (o : ℕ × ℕ) → IsStream rs [] → IsStream rs (o ∷ [])
IsStream-taken [] o h = tt
IsStream-taken (r ∷ []) o (inl e, h) = (inl e, tt)
IsStream-taken (r ∷ []) o (inr e, h) = cc
IsStream-taken (r ∷ (q ∷ rs)) o (e, h) = (e, IsStream-taken (q ∷ rs) o h)

IsStream-push :
    (rs : List InfResult) (r : InfResult) (os : List (ℕ × ℕ))
    → IsStream rs (sender r ∷ [])
    → (r.is_done ≡ true) ⊎ (os ≡ sender r ∷ [])
    → IsStream (rs ++ r ∷ []) os
IsStream-push [] r os h (inl e) = (inl e, tt)
IsStream-push [] r os h (inr e) = rw e (inr refl, tt)
IsStream-push (q ∷ []) r os (e, h) k = (e, IsStream-push [] r os tt k)
IsStream-push (q ∷ (p ∷ rs)) r os (e, h) k = (e, IsStream-push (p ∷ rs) r os h k)

-- `mid_stream` holds the job of the next result, or nothing.
erase_own : (r : InfResult) → erase r.job_id (sender r ∷ []) ≡ []
unfolding erase
erase_own r = rw (==_refl r.job_id) refl

erase-nil : (id : ℕ) → erase id [] ≡ []
unfolding erase
erase-nil id = refl

FreesEach : List InfResult → Type 0
FreesEach rs =
    (free_results rs [] ≡ map (λ e. e.1) (ends rs))
    × ((o : ℕ × ℕ)
        → next_owner rs [] ≡ some o
        → free_results rs (o ∷ []) ≡ map (λ e. e.1) (ends rs))

freed_next :
    (r : InfResult) (rs : List InfResult) (mid_stream : List (ℕ × ℕ))
    → erase r.job_id mid_stream ≡ []
    → (r.is_done ≡ true) ⊎ (next_owner rs [] ≡ some (sender r))
    → FreesEach rs
    → free_results (r ∷ rs) mid_stream ≡ map (λ e. e.1) (ends (r ∷ rs))
unfolding free_results FreesEach
freed_next r rs mid_stream bare (inl e) (f, g) = rw (e, bare, f) refl
freed_next r rs mid_stream bare (inr e) (f, g) = elim (Bool-cases r.is_done) [
  | inl d ↦ rw (d, bare, f) refl
  | inr d ↦ rw (d, bare, g (sender r) e) refl
]

freed_all : (rs : List InfResult) → IsStream rs [] → FreesEach rs
unfolding FreesEach free_results
freed_all [] h = (refl, λ o e. cc)
freed_all (r ∷ rs) (e, h) =
    let rest = freed_all rs h in
    (
      freed_next r rs [] (erase-nil r.job_id) e rest,
      λ o same.
          let own : o ≡ sender r = cc in
          freed_next r rs (o ∷ [])
            (subst (λ p. erase r.job_id (p ∷ []) ≡ []) (sym own) (erase_own r)) e rest,
    )

-- What `stop` frees of a stream that ends with the last result of a job: the callback of each job once.
pub freed_lem :
    (rs : List InfResult) → IsStream rs [] → free_results rs [] ≡ map (λ e. e.1) (ends rs)
unfolding FreesEach
freed_lem rs h = (freed_all rs h).0

module _ (S : Semaphore) (N M : ℕ) where
  abbrev pub Streams : World S → Type 0
  Streams s = IsStream (contents M s.result_queue) (in_hand s.worker)

  pub Step-Streams :
      {s t : World S} → Step S N M s t → Live S N M s → Streams s → t.main ≢ closed → Streams t
  unfolding counted_down after error_result done_result
  Step-Streams (enqueue_ok item q e p) v h o = h
  Step-Streams (enqueue_full item q e p) v h o = h
  Step-Streams {s} (run_take item q e p) v h o =
      IsStream-taken (contents M s.result_queue) (owner item) (rw e at h)
  Step-Streams (run_leave q e p) v h o = rw e at h
  Step-Streams (run_fails item why e) v h o = rw e at h
  Step-Streams (run_starts item e) v h o = rw e at h
  Step-Streams {s} (run_sample item i is_eog piece e) v h o =
      let (_, hand) = sampled is_eog piece i item (ground (arith, v.sound, e)) in
      rw hand (rw e at h)
  Step-Streams {s} (run_push r finished q e p) v h o =
      rw (push_accepted r q v.results_valid p).0
        (IsStream-push (contents M s.result_queue) r [] (rw e at h) (inl (rw e at v.sound)))
  Step-Streams {s} (run_push r (go_on item i) q e p) v h o =
      let fits = rw e at v.sound in
      let own : owner item ≡ sender r = sym fits.1 in
      rw (push_accepted r q v.results_valid p).0 (
        IsStream-push (contents M s.result_queue) r (owner item ∷ [])
          (subst (λ p. IsStream (contents M s.result_queue) (p ∷ [])) own (rw e at h))
          (inr (ap (λ p. p ∷ []) own)))
  Step-Streams (run_spin r next q e p) v h o = rw (push_refused r q v.results_valid p) h
  Step-Streams (run_ring finished e) v h o = rw e at h
  Step-Streams (run_ring (go_on item i) e) v h o = rw e at h
  Step-Streams (run_decoded item i e) v h o = rw e at h
  Step-Streams (run_undecoded item i e) v h o = rw e at h
  Step-Streams (ready_start e r) v h o = h
  Step-Streams {s} (ready_pop r q e p) v h o = (rw (pop_given r q v.results_valid p).0 at h).1
  Step-Streams (ready_next true e) v h o = h
  Step-Streams (ready_next false e) v h o = h
  Step-Streams (ready_end q e p) v h o = rw (pop-none q v.results_valid p).1 h
  Step-Streams (stop_begin e) v h o = h
  Step-Streams (stop_within last e) v h o = h
  Step-Streams (stop_end within e w) v h o = absurd (o refl)
