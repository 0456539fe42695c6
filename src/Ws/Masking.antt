-- ===== src/Ws/Masking.antt =====
-- The mask of a client's frame, and the loop that takes it off.
use capy_js.Prelude.{ℕ, zero, suc, ◌%◌, ◌<◌, ◌≡◌, ◌≤◌, refl, arith, ap, bit_xor}
use capy_js.Prelude.Bits.{bit_xor_twice}
use capy_js.Prelude.{none, some, List, [], ◌∷◌, ◌++◌, get_or, length, get_or-append}
use capy_js.Ws.{unmask}

-- What a client does to its payload (RFC 6455, section 5.3), from byte `i` on.
abbrev pub add_mask : List ℕ → ℕ → List ℕ → List ℕ
add_mask key i [] = []
add_mask key i (p ∷ ps) = bit_xor p (get_or key (i % 4) 0) ∷ add_mask key (suc i) ps

pub length-add_mask : (key : List ℕ) (i : ℕ) (ps : List ℕ) → length (add_mask key i ps) ≡ length ps
length-add_mask key i [] = refl
length-add_mask key i (p ∷ ps) = ap suc (length-add_mask key (suc i) ps)

-- The loop undoes it, where the mask stands before other bytes, and leaves what follows the payload.
pub unmask-add_mask :
    (key behind : List ℕ) (i : ℕ) (ps rest : List ℕ)
    → length key ≡ 4
    → unmask (key ++ behind) i (length ps) (add_mask key i ps ++ rest) ≡ some (ps ++ rest)
unfolding unmask
unmask-add_mask key behind i [] rest four = refl
unmask-add_mask key behind i (p ∷ ps) rest four =
    rw
      (
        unmask-add_mask key behind (suc i) ps rest four,
        get_or-append key behind (i % 4) 0 (omega arith),
        bit_xor_twice p (get_or key (i % 4) 0),
      )
      refl

-- It reads past the end exactly when it has more rounds than bytes.
pub unmask_past_end :
    (mask : List ℕ) (i n : ℕ) (bytes : List ℕ) → length bytes < n → unmask mask i n bytes ≡ none
unfolding unmask
unmask_past_end mask i zero bytes h = absurd (omega arith)
unmask_past_end mask i (suc n) [] h = refl
unmask_past_end mask i (suc n) (b ∷ bytes) h =
    rw (unmask_past_end mask (suc i) n bytes (omega arith)) refl

pub unmask_inside :
    (mask : List ℕ) (i n : ℕ) (bytes : List ℕ)
    → n ≤ length bytes
    → (plain : List ℕ) × (unmask mask i n bytes ≡ some plain) × (length plain ≡ length bytes)
unfolding unmask
unmask_inside mask i zero bytes h = (bytes, refl, refl)
unmask_inside mask i (suc n) [] h = absurd (omega arith)
unmask_inside mask i (suc n) (b ∷ bytes) h =
    let (plain, e, same) = unmask_inside mask (suc i) n bytes (omega arith) in
    rw e (_, refl, ap suc same)
