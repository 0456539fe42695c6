-- ===== src/MemPool.antt =====
-- include/mem_pool.h: a pool of `capacity_` slots with a free list threaded through them.
-- A pointer into the array is the index of its slot; a pointer to a slot's `data` is that of the slot,
-- whose first member it is. The name, used for printing only, is left out.
pub mod Inv
pub mod Init
pub mod Laws
mod Tests
use capy_js.Prelude.{ℕ, zero, suc, ◌+◌, ◌-◌, Bool, true, false, not, Option, none, some}
use capy_js.Prelude.{ltb, ◌==◌, if◌then◌else◌, update, add_size, sub_size, size_max}

pub record Slot (T : Type 0) : Type 0 where
  pub content : T
  pub next : ℕ
  pub in_use : Bool

-- `free_list_head` of a pool with no free slot is `&slots_[SIZE_MAX]`, which is never read.
pub record MemPool (T : Type 0) : Type 0 where
  pub slots : ℕ → Slot T
  pub free_list_head : ℕ
  pub capacity : ℕ
  pub in_use_count : ℕ

-- The slots that the constructor's loop leaves, over `fresh`, the values that `new Slot[]` makes. Its
-- counter is an `int`, so the capacity must be below 2^31, which the theorems about a pool ask for.
unfoldable pub init_slots : {T : Type 0} → ℕ → (ℕ → T) → ℕ → Slot T
init_slots capacity fresh i = record {
  content = fresh i;
  next = if ltb i (capacity - 1) then i + 1 else size_max;
  in_use = false;
}

unfoldable pub init : {T : Type 0} → ℕ → (ℕ → T) → MemPool T
init capacity fresh = record {
  slots = init_slots capacity fresh;
  free_list_head = 0;
  capacity = capacity;
  in_use_count = 0;
}

-- `zeroed` is a `T` after `memset(…, 0, …)`: the result `none` is the null pointer.
unfoldable pub acquire : {T : Type 0} → T → MemPool T → Option ℕ × MemPool T
acquire zeroed p = if p.in_use_count == p.capacity then (none, p) else (
  some p.free_list_head,
  record p {
    slots =
        update p.slots p.free_list_head
          (record { content = zeroed; next = size_max; in_use = true });
    free_list_head = (p.slots p.free_list_head).next;
    in_use_count = add_size p.in_use_count 1;
  },
)

-- `release` without its assertions, as a build with `NDEBUG` has it. `poison` is a `T` after
-- `memset(…, 0xAD, …)`.
unfoldable pub release_unchecked : {T : Type 0} → T → ℕ → MemPool T → MemPool T
release_unchecked poison i p =
    if i == p.free_list_head
    then record p {
      slots = update p.slots i (record (p.slots i) { content = poison; in_use = false });
      in_use_count = sub_size p.in_use_count 1;
    }
    else record p {
      slots =
          update p.slots i (record { content = poison; next = p.free_list_head; in_use = false });
      free_list_head = i;
      in_use_count = sub_size p.in_use_count 1;
    }

-- In a build with assertions, the result `none` is one that failed.
unfoldable pub release_slot : {T : Type 0} → T → ℕ → MemPool T → Option (MemPool T)
unfolding release_unchecked
release_slot poison i p =
    if not (p.slots i).in_use then none else some (release_unchecked poison i p)

unfoldable pub release : {T : Type 0} → T → Option ℕ → MemPool T → Option (MemPool T)
unfolding release_slot
release poison none p = none
release poison (some i) p = release_slot poison i p

unfoldable pub is_exhausted : {T : Type 0} → MemPool T → Bool
is_exhausted p = p.in_use_count == p.capacity

-- What `verify_no_leaks` prints: `true` is "[OK]".
unfoldable pub verify_no_leaks : {T : Type 0} → MemPool T → Bool
verify_no_leaks p = p.in_use_count == 0
