-- ===== src/ServerPool.antt =====
-- The three pools of a server, include/server_pool.h, and what `on_peer_connected` of src/server.cc
-- takes of them.
use capy_js.Prelude.{ℕ, ◌*◌, Bool, true, false, Option, none, some, ◌&&◌, if◌then◌else◌}
use capy_js.MemPool
use capy_js.MemPool.{MemPool}
pub mod Accept
mod Tests

-- The types of the slots, with what their two `memset`s leave: `zero_client` is a `ClientState` of zero
-- bytes, `dead_client` one of bytes 0xAD.
pub record Contents : Type 1 where
  pub ClientState : Type 0
  pub ReadBuffer : Type 0
  pub ConnGuard : Type 0
  pub zero_client : ClientState
  pub dead_client : ClientState
  pub zero_buffer : ReadBuffer
  pub dead_buffer : ReadBuffer
  pub zero_guard : ConnGuard
  pub dead_guard : ConnGuard

-- What a connection event comes to: an error status, a pool with no free slot (the connection is then
-- accepted and closed), the client and guard of a new connection, which is read from if `uv_accept` and
-- `uv_tcp_getpeername` have succeeded and else keeps the two until its idle timer, or a failed
-- assertion.
pub data Peer : Type 0 where
  failed_status : Peer
  no_client : Peer
  no_guard : Peer
  accepted : Bool → ℕ → ℕ → Peer
  asserts : Peer

module _ (C : Contents) where
  open C use {ClientState, ReadBuffer, ConnGuard}

  pub record ServerPool : Type 0 where
    pub clients : MemPool ClientState
    pub read_buffers : MemPool ReadBuffer
    pub guards : MemPool ConnGuard

  unfoldable pub init : ℕ → (ℕ → ClientState) → (ℕ → ReadBuffer) → (ℕ → ConnGuard) → ServerPool
  init max_connections clients read_buffers guards = record {
    clients = MemPool.init max_connections clients;
    read_buffers = MemPool.init (max_connections * 8) read_buffers;
    guards = MemPool.init max_connections guards;
  }

  unfoldable pub acquire_client : ServerPool → Option ℕ × ServerPool
  acquire_client s =
      let (slot, p) = MemPool.acquire C.zero_client s.clients in (slot, record s { clients = p })

  unfoldable pub acquire_read_buffer : ServerPool → Option ℕ × ServerPool
  acquire_read_buffer s =
      let (slot, p) = MemPool.acquire C.zero_buffer s.read_buffers in
      (slot, record s { read_buffers = p })

  unfoldable pub acquire_guard : ServerPool → Option ℕ × ServerPool
  acquire_guard s =
      let (slot, p) = MemPool.acquire C.zero_guard s.guards in (slot, record s { guards = p })

  unfoldable pub release_client : Option ℕ → ServerPool → Option ServerPool
  release_client slot s = elim (MemPool.release C.dead_client slot s.clients) [
    | none ↦ none
    | some p ↦ some (record s { clients = p })
  ]

  unfoldable pub release_read_buffer : Option ℕ → ServerPool → Option ServerPool
  release_read_buffer slot s = elim (MemPool.release C.dead_buffer slot s.read_buffers) [
    | none ↦ none
    | some p ↦ some (record s { read_buffers = p })
  ]

  unfoldable pub release_guard : Option ℕ → ServerPool → Option ServerPool
  release_guard slot s = elim (MemPool.release C.dead_guard slot s.guards) [
    | none ↦ none
    | some p ↦ some (record s { guards = p })
  ]

  -- What the three lines that it prints say: `true` for "[OK]" in all of them.
  unfoldable pub verify_no_leaks : ServerPool → Bool
  verify_no_leaks s =
      MemPool.verify_no_leaks s.clients
      && (MemPool.verify_no_leaks s.read_buffers && MemPool.verify_no_leaks s.guards)

  -- `on_peer_connected` with a client `i`, from the guard on.
  unfoldable pub with_client : Bool → ℕ → ServerPool → Peer × ServerPool
  with_client listening i s =
      let (guard, s') = acquire_guard s in
      elim guard [
        | some j ↦ (accepted listening i j, s')
        | none ↦ elim (release_client (some i) s') [
          | none ↦ (asserts, s')
          | some s'' ↦ (no_guard, s'')
        ]
      ]

  -- `failed` is `status < 0`, and `listening` what `uv_accept` and `uv_tcp_getpeername` come to.
  unfoldable pub on_peer_connected : Bool → Bool → ServerPool → Peer × ServerPool
  on_peer_connected failed listening s =
      let (client, s') = acquire_client s in
      if failed
      then (failed_status, s)
      else (elim client [ none ↦ (no_client, s') | some i ↦ with_client listening i s' ])
