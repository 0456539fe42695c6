-- ===== src/MemPool/Init.antt =====
-- The pool as constructed: every slot is on the free list, in order.
use capy_js.Prelude.{◌^◌, ℕ, zero, suc, ◌+◌, ◌-◌, ◌≤◌, ◌<◌, ◌≡◌, refl, arith, ap}
use capy_js.Prelude.{true, ◌&&◌, [], length}
use capy_js.Prelude.{ltb, leb, All}
use capy_js.Prelude.{elem, IsNodup}
use capy_js.MemPool.{init_slots, init}
use capy_js.MemPool.Inv.{ascending, Chain, Inv}

elem-ascending : (j i n : ℕ) → elem j (ascending i n) ≡ (leb i j && ltb j (i + n))
unfolding elem
elem-ascending j i zero = ground arith
elem-ascending j i (suc n) = ground (arith, elem-ascending j (i + 1) n)

ascending-IsNodup : (i n : ℕ) → IsNodup (ascending i n)
ascending-IsNodup i zero = tt
ascending-IsNodup i (suc n) =
    (ground (arith, elem-ascending i (i + 1) n), ascending-IsNodup (i + 1) n)

ascending-inside : (i n c : ℕ) → i + n ≤ c → All (λ j. j < c) (ascending i n)
ascending-inside i zero c h = tt
ascending-inside i (suc n) c h = (omega arith, ascending-inside (i + 1) n c (omega arith))

length-ascending : (i n : ℕ) → length (ascending i n) ≡ n
length-ascending i zero = refl
length-ascending i (suc n) = ap suc (length-ascending (i + 1) n)

module _ {T : Type 0} where
  init_slots-Chain :
      (capacity : ℕ) (fresh : ℕ → T) (i n : ℕ)
      → i + suc n ≡ capacity
      → Chain (init_slots capacity fresh) i (ascending i (suc n))
  unfolding init_slots
  init_slots-Chain capacity fresh i zero e = (refl, ground arith)
  init_slots-Chain capacity fresh i (suc n) e =
      let more : ltb i (capacity - 1) ≡ true = ground arith in
      (refl, rw more (init_slots-Chain capacity fresh (i + 1) n (omega arith)))

  -- The constructor threads all the slots, in order.
  pub init-Inv :
      (capacity : ℕ) (fresh : ℕ → T)
      → (0 < capacity) × (capacity < 2 ^ 31)
      → Inv (init capacity fresh) (ascending 0 capacity) []
  unfolding init
  init-Inv zero fresh sized = absurd (omega arith)
  init-Inv (suc n) fresh sized = record {
    sized = (sized.0, omega (arith, sized.1));
    chain = init_slots-Chain (suc n) fresh 0 n (omega arith);
    free_nodup = ascending-IsNodup 0 (suc n);
    live_nodup = tt;
    inside = ascending-inside 0 (suc n) (suc n) (omega arith);
    owned = tt;
    idle = λ i h. unfold init_slots in ground (arith, elem-ascending i 0 (suc n));
    busy = λ i h. unfold init_slots elem in refl;
    counted = refl;
    whole = omega (arith, length-ascending 0 (suc n));
  }
