-- ===== src/MemPool/Inv.antt =====
-- The free list of a pool: which slots it runs through, and that it holds every slot not in use.
use capy_js.Prelude.{ℕ, zero, suc, ◌+◌, ◌<◌, ◌≡◌, refl, arith, sym, subst}
use capy_js.Prelude.{true, false, not, none, some, List, [], ◌∷◌, length}
use capy_js.Prelude.{◌==◌, ==_refl, if◌then◌else◌, update, add_size, sub_size, size_max, All}
use capy_js.Prelude.{elem, IsNodup, remove, elem-remove, remove-IsNodup, length-remove, All-remove}
use capy_js.MemPool.{Slot, MemPool, acquire, release}

-- The list that the constructor threads: `n` slots from `i` on, in order.
abbrev pub ascending : ℕ → ℕ → List ℕ
ascending i zero = []
ascending i (suc n) = i ∷ ascending (i + 1) n

module _ {T : Type 0} where
  -- The slots met from index `h` on, up to the mark `SIZE_MAX`.
  abbrev pub Chain : (ℕ → Slot T) → ℕ → List ℕ → Type 0
  Chain slots h [] = h ≡ size_max
  Chain slots h (i ∷ is) = (h ≡ i) × Chain slots (slots i).next is

  -- `free` is what the free list of the pool runs through, and `live` lists the other slots, the one
  -- handed out last in front.
  pub record Inv (p : MemPool T) (free live : List ℕ) : Type 0 where
    pub sized : (0 < p.capacity) × (p.capacity < size_max)
    pub chain : Chain p.slots p.free_list_head free
    pub free_nodup : IsNodup free
    pub live_nodup : IsNodup live
    pub inside : All (λ i. i < p.capacity) free
    pub owned : All (λ i. i < p.capacity) live
    pub idle : (i : ℕ) → i < p.capacity → (p.slots i).in_use ≡ not (elem i free)
    pub busy : (i : ℕ) → i < p.capacity → (p.slots i).in_use ≡ elem i live
    pub counted : p.in_use_count ≡ length live
    pub whole : length live + length free ≡ p.capacity

  -- A write to a slot that is not on the list leaves the list as it was.
  Chain-update :
      (slots : ℕ → Slot T) (i : ℕ) (s : Slot T) (h : ℕ) (free : List ℕ)
      → elem i free ≡ false
      → Chain slots h free
      → Chain (update slots i s) h free
  unfolding elem
  Chain-update slots i s h [] off c = c
  Chain-update slots i s h (j ∷ js) off (e, c) =
      let miss : i == j ≡ false = ground arith in
      let same : update slots i s j ≡ slots j = rw miss in
      (e, rw same (Chain-update slots i s (slots j).next js (ground arith) c))

  -- With no free slot `acquire` returns the null pointer and changes nothing.
  pub acquire-none :
      {p : MemPool T} {live : List ℕ} (zeroed : T) → Inv p [] live → acquire zeroed p ≡ (none, p)
  unfolding acquire
  acquire-none zeroed v = ground arith

  -- Otherwise it hands out the first slot of the list, and keeps the invariant.
  pub acquire-some :
      {p : MemPool T} {live : List ℕ} (zeroed : T) (i : ℕ) (free : List ℕ)
      → Inv p (i ∷ free) live
      → (p' : MemPool T) × (acquire zeroed p ≡ (some i, p'))
        × Inv p' free (i ∷ live)
        × (p'.slots
            ≡ update p.slots i (record { content = zeroed; next = size_max; in_use = true }))
        × (p'.capacity ≡ p.capacity)
  unfolding acquire elem
  acquire-some {p} {live} zeroed i free v = (
    record p {
      slots = update p.slots i (record { content = zeroed; next = size_max; in_use = true });
      free_list_head = (p.slots i).next;
      in_use_count = add_size p.in_use_count 1;
    },
    rw (open_branch, v.chain.0),
    record {
      sized = v.sized;
      chain = Chain-update p.slots i _ (p.slots i).next free v.free_nodup.0 v.chain.1;
      free_nodup = v.free_nodup.1;
      live_nodup = (ground (arith, v.idle i v.inside.0, v.busy i v.inside.0), v.live_nodup);
      inside = v.inside.1;
      owned = (v.inside.0, v.owned);
      idle = λ j h. ground (arith, v.idle j h);
      busy = λ j h. ground (arith, v.busy j h);
      counted = ground arith;
      whole = ground arith;
    },
    refl,
    refl,
  )
    where
      open_branch : p.in_use_count == p.capacity ≡ false
      open_branch = ground arith

  -- The free list never starts at a slot that is off it.
  head_off :
      (slots : ℕ → Slot T) (i h : ℕ) (free : List ℕ)
      → Chain slots h free
      → elem i free ≡ false
      → i < size_max
      → i == h ≡ false
  unfolding elem
  head_off slots i h [] c off lt = ground arith
  head_off slots i h (j ∷ js) c off lt = ground arith

  -- A slot in use goes to the front of the list, and is free from then on.
  pub release_used :
      {p : MemPool T} {free live : List ℕ} (poison : T) (i : ℕ)
      → Inv p free live
      → i < p.capacity
      → (p.slots i).in_use ≡ true
      → (p' : MemPool T) × (release poison (some i) p ≡ some p')
        × Inv p' (i ∷ free) (remove i live)
        × (p'.slots
            ≡ update p.slots i
                (record { content = poison; next = p.free_list_head; in_use = false }))
        × (p'.capacity ≡ p.capacity)
  unfolding release elem
  release_used {p} {free} {live} poison i v h used = (
    record p {
      slots =
          update p.slots i (record { content = poison; next = p.free_list_head; in_use = false });
      free_list_head = i;
      in_use_count = sub_size p.in_use_count 1;
    },
    rw (used, head_off p.slots i p.free_list_head free v.chain off_list (omega arith)),
    record {
      sized = v.sized;
      chain = (
        refl,
        subst (λ b. Chain (update p.slots i freed) (if b then freed else p.slots i).next free)
            (sym (==_refl i)) (Chain-update p.slots i freed p.free_list_head free off_list v.chain),
      );
      free_nodup = (off_list, v.free_nodup);
      live_nodup = remove-IsNodup i live v.live_nodup;
      inside = (h, v.inside);
      owned = All-remove p.capacity i live v.owned;
      idle = λ j k. ground (arith, v.idle j k);
      busy = λ j k. ground (arith, v.busy j k, elem-remove i j live v.live_nodup);
      counted = ground (arith, on_list, length-remove i live);
      whole = ground (arith, on_list, length-remove i live);
    },
    refl,
    refl,
  )
    where
      freed : Slot T
      freed = record { content = poison; next = p.free_list_head; in_use = false }

      off_list : elem i free ≡ false
      off_list = ground (arith, v.idle i h)

      on_list : elem i live ≡ true
      on_list = ground (arith, v.busy i h)

  -- Releasing a slot that is not in use, or the null pointer, fails an assertion.
  pub release_idle :
      (p : MemPool T) (poison : T) (i : ℕ)
      → (p.slots i).in_use ≡ false
      → (release poison (some i) p ≡ none) × (release poison none p ≡ none)
  unfolding release
  release_idle p poison i e = (rw e, refl)
