-- ===== src/Prelude/Elems.antt =====
-- Lists of numbers as sets: membership, absence of repetition, removal.
use Prim.Native.Nat.{ℕ, suc, ◌+◌, ◌<◌}
use mathlib.Core.Path.{◌≡◌}
use mathlib.Core.Bool.{Bool, true, false, ◌||◌}
use mathlib.Core.List.{List, [], ◌∷◌}
use native.Mathlib.Omega.{arith}
use capy_js.Prelude.Tests.{◌==◌, if◌then◌else◌}
use capy_js.Prelude.Lists.{length, All}

unfoldable pub elem : ℕ → List ℕ → Bool
elem i [] = false
elem i (j ∷ js) = i == j || elem i js

abbrev pub IsNodup : List ℕ → Type 0
IsNodup [] = Unit
IsNodup (i ∷ is) = (elem i is ≡ false) × IsNodup is

-- Without the first `i`.
unfoldable pub remove : ℕ → List ℕ → List ℕ
remove i [] = []
remove i (j ∷ js) = if i == j then js else j ∷ remove i js

pub elem-remove :
    (i j : ℕ) (js : List ℕ)
    → IsNodup js
    → elem j (remove i js) ≡ (if i == j then false else elem j js)
unfolding elem remove
elem-remove i j [] n = ground arith
elem-remove i j (k ∷ js) n = ground (arith, elem-remove i j js)

pub remove-IsNodup : (i : ℕ) (js : List ℕ) → IsNodup js → IsNodup (remove i js)
unfolding elem remove
remove-IsNodup i [] n = tt
remove-IsNodup i (k ∷ js) n = ground (arith, remove-IsNodup i js, elem-remove i k js)

pub length-remove :
    (i : ℕ) (js : List ℕ) → elem i js ≡ true → length js ≡ suc (length (remove i js))
unfolding elem remove
length-remove i [] e = cc
length-remove i (k ∷ js) e = ground (arith, length-remove i js)

pub All-remove : (n i : ℕ) (js : List ℕ) → All (λ j. j < n) js → All (λ j. j < n) (remove i js)
unfolding remove
All-remove n i [] h = tt
All-remove n i (k ∷ js) h = ground (arith, All-remove n i js)

pub elem-lt : (n i : ℕ) (js : List ℕ) → All (λ j. j < n) js → elem i js ≡ true → i < n
unfolding elem
elem-lt n i [] h e = cc
elem-lt n i (k ∷ js) h e = ground (arith, elem-lt n i js)

-- How often `i` is in a list.
abbrev pub times : ℕ → List ℕ → ℕ
times i [] = 0
times i (j ∷ js) = if i == j then 1 + times i js else times i js
