-- ===== src/MemPool/Tests.antt =====
-- A pool of three slots. The slots hold numbers; 0 and 0xAD stand for what the two `memset`s leave.
use capy_js.Prelude.{◌^◌, ℕ, ◌<◌, ◌≡◌, refl, arith}
use capy_js.Prelude.{false, none, some, [], ◌∷◌, elem, remove, sub_size, length, ◌⊎◌}
use capy_js.MemPool.{
  MemPool, init, init_slots, acquire, release, release_unchecked, is_exhausted, verify_no_leaks,
}
use capy_js.MemPool.Laws.{Reach, start, took, acquire_is_fresh, release_once, reports_are_exact}

abbrev fresh : ℕ → ℕ
fresh _ = 7

abbrev three : MemPool ℕ
three = init 3 fresh

abbrev after : MemPool ℕ → MemPool ℕ
after p = (acquire 0 p).1

-- The slots come in order, then the null pointer.
acquire_in_order :
    ((acquire 0 three).0 ≡ some 0)
    × ((acquire 0 (after three)).0 ≡ some 1)
    × ((acquire 0 (after (after three))).0 ≡ some 2)
    × ((acquire 0 (after (after (after three)))).0 ≡ none)
unfolding acquire init init_slots
acquire_in_order = (refl, refl, refl, refl)

abbrev two_out : MemPool ℕ
two_out = after (after three)

two_out_Reach : Reach 0 0xad 3 fresh two_out (1 ∷ 0 ∷ [])
unfolding acquire init init_slots
two_out_Reach = took 1 (took 0 start refl) refl

three_sized : (0 < 3) × (3 < 2 ^ 31)
three_sized = omega arith

acquire_is_fresh_example :
    ((i : ℕ) × ((acquire 0 two_out).0 ≡ some i) × (elem i (1 ∷ 0 ∷ []) ≡ false) × (i < 3))
    ⊎ (((acquire 0 two_out).0 ≡ none) × (length {A = ℕ} (1 ∷ 0 ∷ []) ≡ 3))
acquire_is_fresh_example = acquire_is_fresh 0 0xad 3 fresh three_sized two_out_Reach

release_once_example :
    (p' : MemPool ℕ) × (release 0xad (some 0) two_out ≡ some p')
    × Reach 0 0xad 3 fresh p' (remove 0 (1 ∷ 0 ∷ []))
    × (release 0xad (some 0) p' ≡ none)
    × ((release_unchecked 0xad 0 p').in_use_count ≡ sub_size (length (remove 0 (1 ∷ 0 ∷ []))) 1)
release_once_example = release_once 0 0xad 3 fresh three_sized 0 two_out_Reach (unfold elem in refl)

reports_are_exact_example :
    (verify_no_leaks two_out ≡ false) × (is_exhausted two_out ≡ false) × (two_out.in_use_count ≡ 2)
reports_are_exact_example = reports_are_exact 0 0xad 3 fresh three_sized two_out_Reach

-- A slot given back is the next one handed out.
last_in_first_out :
    (p : MemPool ℕ) × (release 0xad (some 0) two_out ≡ some p) × ((acquire 0 p).0 ≡ some 0)
unfolding acquire release init init_slots
last_in_first_out = (_, refl, refl)
