-- ===== src/ServerPool/Accept.antt =====
-- A new connection and the pools.
use capy_js.Prelude.{Bool, subst, ◌^◌, ℕ, ◌<◌, ◌≡◌, refl, ap, ◌⊎◌, inl, inr, Option-cases}
use capy_js.Prelude.{true, false, none, some, List, ◌∷◌, length, ==_refl, elem, remove}
use capy_js.MemPool
use capy_js.MemPool.{MemPool}
use capy_js.MemPool.Laws.{Reach, took, refused, room_before, acquire_is_fresh, release_once}
use capy_js.ServerPool.{
  Contents, ServerPool, no_client, no_guard, accepted, acquire_client, acquire_guard,
  release_client, with_client, on_peer_connected,
}

module _ (C : Contents) (capacity : ℕ) (clients : ℕ → C.ClientState)
    (guards : ℕ → C.ConnGuard) where
  -- A server whose connections hold these slots of its two pools.
  pub record Held (s : ServerPool C) (mine : List ℕ) (theirs : List ℕ) : Type 0 where
    pub of_clients : Reach C.zero_client C.dead_client capacity clients s.clients mine
    pub of_guards : Reach C.zero_guard C.dead_guard capacity guards s.guards theirs

  module _ (sized : (0 < capacity) × (capacity < 2 ^ 31)) where
    -- The branch without a guard: the client's slot goes back.
    given_back :
        (s : ServerPool C) (mine theirs : List ℕ) (i : ℕ)
        → Held s (i ∷ mine) theirs
        → (s' : ServerPool C) × (release_client C (some i) s ≡ some s') × Held s' mine theirs
    unfolding release_client remove elem
    given_back s mine theirs i h =
        let here : elem i (i ∷ mine) ≡ true = rw (==_refl i) refl in
        let (p, e, r, _, _) =
          release_once C.zero_client C.dead_client capacity clients sized i h.of_clients here in
        let back = rw (==_refl i) at r in
        (
          record s { clients = p },
          rw (e, release_client) refl,
          record { of_clients = back; of_guards = h.of_guards },
        )

    full_guards :
        (s : ServerPool C) (theirs : List ℕ)
        → Reach C.zero_guard C.dead_guard capacity guards s.guards theirs
        → (MemPool.acquire C.zero_guard s.guards).0 ≡ none
        → length theirs ≡ capacity
    full_guards s theirs r e =
        elim (acquire_is_fresh C.zero_guard C.dead_guard capacity guards sized r) [
          | inl (j, e', _, _) ↦ cc
          | inr (_, full) ↦ full
        ]

    fresh_guard :
        (s : ServerPool C) (theirs : List ℕ)
        → Reach C.zero_guard C.dead_guard capacity guards s.guards theirs
        → (j : ℕ) → (MemPool.acquire C.zero_guard s.guards).0 ≡ some j
        → elem j theirs ≡ false
    fresh_guard s theirs r j e =
        elim (acquire_is_fresh C.zero_guard C.dead_guard capacity guards sized r) [
          | inl (k, e', new, _) ↦
              let same : k ≡ j = cc in subst (λ n. elem n theirs ≡ false) same new
          | inr (e', _) ↦ cc
        ]

    -- The guard's part, with the client `i` in hand.
    guarded :
        (listening : Bool) (s : ServerPool C) (mine theirs : List ℕ) (i : ℕ)
        → Held s (i ∷ mine) theirs
        → let (peer, s') = with_client C listening i s in
          ((j : ℕ) × (peer ≡ accepted listening i j)
            × (elem j theirs ≡ false)
            × (length theirs < capacity)
            × Held s' (i ∷ mine) (j ∷ theirs))
          ⊎ ((peer ≡ no_guard) × (length theirs ≡ capacity) × Held s' mine theirs)
    unfolding with_client acquire_guard
    guarded listening s mine theirs i h =
        let call = MemPool.acquire C.zero_guard s.guards in
        elim (Option-cases call.0) [
          | inr (j, e) ↦
              let r = took j h.of_guards (ap (λ o. (o, call.1)) e) in
              let run : with_client C listening i s
                  ≡ (accepted listening i j, record s { guards = call.1 }) =
                rw (with_client, e) refl in
              let new = fresh_guard s theirs h.of_guards j e in
              rw run (
                inl (
                  j,
                  refl,
                  new,
                  room_before C.zero_guard C.dead_guard capacity guards sized j r,
                  record { of_clients = h.of_clients; of_guards = r },
                ))
          | inl e ↦
              let kept = record s { guards = call.1 } in
              let h' : Held kept (i ∷ mine) theirs = record {
                of_clients = h.of_clients;
                of_guards = refused h.of_guards (ap (λ o. (o, call.1)) e);
              } in
              let (s'', back, held) = given_back kept mine theirs i h' in
              let run : with_client C listening i s ≡ (no_guard, s'') =
                rw (with_client, e, back) refl in
              rw run (inr (refl, full_guards s theirs h.of_guards e, held))
        ]

    -- With pools that have slots, fewer than 2^31, a connection gets a client and a guard exactly when
    -- each of the two pools has a slot that is not held, and no other connection holds the two; so does
    -- one for which `uv_accept` then fails. Otherwise all the slots of one pool are held, and nobody
    -- holds another slot than before; no assertion fails.
    pub accept_takes_one_of_each :
        (listening : Bool) (s : ServerPool C) (mine theirs : List ℕ)
        → Held s mine theirs
        → let (peer, s') = on_peer_connected C false listening s in
          ((i : ℕ) × (j : ℕ) × (peer ≡ accepted listening i j)
            × (elem i mine ≡ false)
            × (elem j theirs ≡ false)
            × (length mine < capacity)
            × (length theirs < capacity)
            × Held s' (i ∷ mine) (j ∷ theirs))
          ⊎ (((peer ≡ no_client) × (length mine ≡ capacity) × Held s' mine theirs)
              ⊎ ((peer ≡ no_guard) × (length theirs ≡ capacity) × Held s' mine theirs))
    unfolding on_peer_connected acquire_client
    accept_takes_one_of_each listening s mine theirs h =
        let call = MemPool.acquire C.zero_client s.clients in
        elim (acquire_is_fresh C.zero_client C.dead_client capacity clients sized h.of_clients) [
          | inl (i, e, new, _) ↦
              let r = took i h.of_clients (ap (λ o. (o, call.1)) e) in
              let s' = record s { clients = call.1 } in
              let h' : Held s' (i ∷ mine) theirs = record {
                of_clients = r;
                of_guards = h.of_guards;
              } in
              let run : on_peer_connected C false listening s ≡ with_client C listening i s' =
                rw (on_peer_connected, e) refl in
              elim (guarded listening s' mine theirs i h') [
                | inl (j, p, free, few, held) ↦
                    let room = room_before C.zero_client C.dead_client capacity clients sized i r in
                    rw run (inl (i, j, p, new, free, room, few, held))
                | inr (p, full, held) ↦ rw run (inr (inr (p, full, held)))
              ]
          | inr (e, full) ↦
              let run : on_peer_connected C false listening s
                  ≡ (no_client, record s { clients = call.1 }) =
                rw (on_peer_connected, e) refl in
              let held : Held (record s { clients = call.1 }) mine theirs = record {
                of_clients = refused h.of_clients (ap (λ o. (o, call.1)) e);
                of_guards = h.of_guards;
              } in
              rw run (inr (inl (refl, full, held)))
        ]
