-- ===== src/Fifo.antt =====
-- What a bounded queue promises: first in, first out, at most `cap` items, refusal when full.
use capy_js.Prelude.{ℕ, Bool, true, false, Option, none, some, List, [], ◌∷◌, ◌++◌}
use capy_js.Prelude.{length, ltb, if◌then◌else◌}

-- What a client may ask, and what it is told.
pub data Op (A : Type 0) : Type 0 where
  put : A → Op A
  get : Op A

pub data Reply (A : Type 0) : Type 0 where
  took : Bool → Reply A
  gave : Option A → Reply A

module _ {A : Type 0} where
  unfoldable pub push : ℕ → A → List A → Bool × List A
  push cap item q = if ltb (length q) cap then (true, q ++ item ∷ []) else (false, q)

  unfoldable pub pop : List A → Option A × List A
  pop [] = (none, [])
  pop (x ∷ q) = (some x, q)

  unfoldable pub run : ℕ → List A → List (Op A) → List (Reply A)
  run cap q [] = []
  run cap q (put x ∷ ops) = let (b, q') = push cap x q in took b ∷ run cap q' ops
  run cap q (get ∷ ops) = let (o, q') = pop q in gave o ∷ run cap q' ops
