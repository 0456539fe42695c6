-- ===== src/ServerPool/Tests.antt =====
-- A server with one connection at most, whose slots hold numbers.
use capy_js.Prelude.{ℕ, true, ◌<◌, ◌≡◌, ◌⊎◌, refl, arith, false, [], ◌∷◌, length, elem}
use capy_js.MemPool
use capy_js.MemPool.Laws.{start}
use capy_js.ServerPool.{
  Contents, ServerPool, init, no_client, no_guard, accepted, on_peer_connected, acquire_client,
  with_client, acquire_guard,
}
use capy_js.ServerPool.Accept.{Held, accept_takes_one_of_each}

abbrev numbers : Contents
numbers = record {
  ClientState = ℕ;
  ReadBuffer = ℕ;
  ConnGuard = ℕ;
  zero_client = 0;
  dead_client = 0xad;
  zero_buffer = 0;
  dead_buffer = 0xad;
  zero_guard = 0;
  dead_guard = 0xad;
}

abbrev fresh : ℕ → ℕ
fresh _ = 7

abbrev small : ServerPool numbers
small = init numbers 1 fresh fresh fresh

small_Held : Held numbers 1 fresh fresh small [] []
unfolding init
small_Held = record { of_clients = start; of_guards = start }

accept_takes_one_of_each_example :
    let (peer, s') = on_peer_connected numbers false true small in
    ((i : ℕ) × (j : ℕ) × (peer ≡ accepted true i j)
      × (elem i [] ≡ false)
      × (elem j [] ≡ false)
      × (length {A = ℕ} [] < 1)
      × (length {A = ℕ} [] < 1)
      × Held numbers 1 fresh fresh s' (i ∷ []) (j ∷ []))
    ⊎ (((peer ≡ no_client) × (length {A = ℕ} [] ≡ 1) × Held numbers 1 fresh fresh s' [] [])
        ⊎ ((peer ≡ no_guard) × (length {A = ℕ} [] ≡ 1) × Held numbers 1 fresh fresh s' [] []))
accept_takes_one_of_each_example =
    accept_takes_one_of_each numbers 1 fresh fresh (omega arith) true small [] [] small_Held

-- The second connection finds no client.
second_refused :
    (on_peer_connected numbers false true (on_peer_connected numbers false true small).1).0
    ≡ no_client
unfolding init on_peer_connected acquire_client with_client acquire_guard MemPool.acquire
    MemPool.init MemPool.init_slots
second_refused = refl
