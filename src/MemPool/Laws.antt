-- ===== src/MemPool/Laws.antt =====
-- What a client of a pool may rely on after any sequence of its calls.
use capy_js.Prelude.{◌^◌, ℕ, ◌<◌, ◌≡◌, refl, arith, ap, ◌∙◌, sym, subst, subst₂}
use capy_js.Prelude.{true, false, none, some, List, [], ◌∷◌, length, Option-cases, inl, inr, ◌⊎◌}
use capy_js.Prelude.{◌==◌, ==_refl, sub_size, elem, remove, elem-lt}
use capy_js.MemPool.{
  MemPool, init, acquire, release, release_unchecked, is_exhausted, verify_no_leaks,
}
use capy_js.MemPool.Inv.{Inv, acquire-none, acquire-some, release_used, release_idle}
use capy_js.MemPool.Init.{init-Inv}

module _ {T : Type 0} (zeroed poison : T) (capacity : ℕ) (fresh : ℕ → T) where
  -- A pool after some calls, with the slots that the client holds: what `acquire` gave it and it has
  -- not given back. It gives back only what it holds.
  pub data Reach : MemPool T → List ℕ → Type 0 where
    start : Reach (init capacity fresh) []
    took :
        {p p' : MemPool T} {held : List ℕ} (i : ℕ)
        → Reach p held
        → acquire zeroed p ≡ (some i, p')
        → Reach p' (i ∷ held)
    refused :
        {p p' : MemPool T} {held : List ℕ}
        → Reach p held
        → acquire zeroed p ≡ (none, p')
        → Reach p' held
    gave :
        {p p' : MemPool T} {held : List ℕ} (i : ℕ)
        → Reach p held
        → elem i held ≡ true
        → release poison (some i) p ≡ some p'
        → Reach p' (remove i held)

  -- The invariant, with the capacity that never changes.
  abbrev pub Known : MemPool T → List ℕ → Type 0
  Known p held = (free : List ℕ) × Inv p free held × (p.capacity ≡ capacity)

  took-Known :
      (p p' : MemPool T) (held : List ℕ) (i : ℕ)
      → Known p held
      → acquire zeroed p ≡ (some i, p')
      → Known p' (i ∷ held) × (elem i held ≡ false) × (i < capacity)
  took-Known p p' held i ([], v, c) e = cc (acquire-none zeroed v)
  took-Known p p' held i (j ∷ free, v, c) e =
      let (q, e', v', _, c') = acquire-some zeroed j free v in
      let same : q ≡ p' = cc in
      let slot : j ≡ i = cc in
      let inv : Inv p' free (i ∷ held) = subst₂ (λ r k. Inv r free (k ∷ held)) same slot v' in
      let cap : p'.capacity ≡ capacity = ap (λ (r : MemPool T). r.capacity) (sym same) ∙ c' ∙ c in
      ((free, inv, cap), inv.live_nodup.0, subst (λ n. i < n) cap inv.owned.0)

  refused-Known :
      (p p' : MemPool T) (held : List ℕ)
      → Known p held
      → acquire zeroed p ≡ (none, p')
      → Known p' held × (length held ≡ capacity)
  refused-Known p p' held ([], v, c) e =
      let same : p ≡ p' = cc (acquire-none zeroed v) in
      (subst (λ r. Known r held) same ([], v, c), omega (arith, v.whole))
  refused-Known p p' held (j ∷ free, v, c) e =
      let (q, e', _, _, _) = acquire-some zeroed j free v in cc

  gave-Known :
      (p : MemPool T) (held : List ℕ) (i : ℕ)
      → Known p held
      → elem i held ≡ true
      → (p' : MemPool T) × (release poison (some i) p ≡ some p') × Known p' (remove i held)
  gave-Known p held i (free, v, c) h =
      let inside = elem-lt p.capacity i held v.owned h in
      let (q, e', v', _, c') = release_used poison i v inside (v.busy i inside ∙ h) in
      (q, e', (i ∷ free, v', c' ∙ c))

  module _ (sized : (0 < capacity) × (capacity < 2 ^ 31)) where
    Reach-Known : {p : MemPool T} {held : List ℕ} → Reach p held → Known p held
    unfolding init
    Reach-Known start = (_, init-Inv capacity fresh sized, refl)
    Reach-Known (took {p} {p'} {held} i r e) = (took-Known p p' held i (Reach-Known r) e).0
    Reach-Known (refused {p} {p'} {held} r e) = (refused-Known p p' held (Reach-Known r) e).0
    Reach-Known (gave {p} {p'} {held} i r h e) =
        let (q, e', k) = gave-Known p held i (Reach-Known r) h in
        subst (λ s. Known s (remove i held)) (cc) k

    pub room_before :
        {p : MemPool T} {held : List ℕ} (i : ℕ) → Reach p (i ∷ held) → length held < capacity
    room_before i r = let (free, v, c) = Reach-Known r in omega (arith, v.whole, c)

    -- In a pool with slots, fewer than 2^31, after any calls of `acquire` and releases of what the client
    -- holds, `acquire` hands out a slot of the array that the client does not hold, or returns the null
    -- pointer, and then the client holds all the slots.
    pub acquire_is_fresh :
        {p : MemPool T} {held : List ℕ}
        → Reach p held
        → let out = (acquire zeroed p).0 in
          ((i : ℕ) × (out ≡ some i) × (elem i held ≡ false) × (i < capacity))
          ⊎ ((out ≡ none) × (length held ≡ capacity))
    acquire_is_fresh {p} {held} r = elim (Option-cases (acquire zeroed p).0) [
      | inl e ↦ inr (
        e,
        (refused-Known p (acquire zeroed p).1 held (Reach-Known r)
            (ap (λ o. (o, (acquire zeroed p).1)) e)).1,
      )
      | inr (i, e) ↦
          let known =
            took-Known p (acquire zeroed p).1 held i (Reach-Known r)
              (ap (λ o. (o, (acquire zeroed p).1)) e) in
          inl (i, e, known.1, known.2)
    ]

    -- In a pool with slots, fewer than 2^31, a slot that the client holds can be given back. In a build
    -- with assertions, giving it back once more fails the one against a double free; without them, it
    -- leaves a count of the slots in use that is one below what the client holds, and wraps around when
    -- that is nothing.
    pub release_once :
        {p : MemPool T} {held : List ℕ} (i : ℕ)
        → Reach p held
        → elem i held ≡ true
        → (p' : MemPool T) × (release poison (some i) p ≡ some p')
          × Reach p' (remove i held)
          × (release poison (some i) p' ≡ none)
          × ((release_unchecked poison i p').in_use_count ≡ sub_size (length (remove i held)) 1)
    unfolding release_unchecked
    release_once {p} {held} i r h =
        let (free, v, c) = Reach-Known r in
        let inside = elem-lt p.capacity i held v.owned h in
        let (q, e', v', slots, c') = release_used poison i v inside (v.busy i inside ∙ h) in
        let gone : (q.slots i).in_use ≡ false = rw (slots, ==_refl i) refl in
        (
          q,
          e',
          gave i r h e',
          (release_idle q poison i gone).0,
          ground (arith, v'.chain.0, v'.counted),
        )

    -- `verify_no_leaks` reports no leak exactly when the client holds nothing, and `is_exhausted`
    -- holds exactly when `acquire` fails.
    pub reports_are_exact :
        {p : MemPool T} {held : List ℕ}
        → Reach p held
        → (verify_no_leaks p ≡ (length held == 0))
          × (is_exhausted p ≡ (length held == capacity))
          × (p.in_use_count ≡ length held)
    unfolding verify_no_leaks is_exhausted
    reports_are_exact r =
        let (free, v, c) = Reach-Known r in (rw v.counted, rw (v.counted, c), v.counted)
