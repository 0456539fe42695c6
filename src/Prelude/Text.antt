-- ===== src/Prelude/Text.antt =====
-- The bytes of a literal, and what the C library prints.
use Prim.Native.Char.{code}
use Prim.Native.String.{String}
use Prim.Native.Nat.{ℕ, zero, suc, ◌+◌, ◌/◌, ◌%◌, ◌≤◌}
use mathlib.Core.List.{List, [], ◌∷◌, ◌++◌, map}
use native.Mathlib.Omega.{arith}
use mathlib.Core.Path.{◌≡◌, refl}
use mathlib.Core.Bool.{false≢true, Bool, true, false, ◌&&◌, ◌||◌}
use capy_js.Prelude.Tests.{ltb, leb, ◌==◌, if◌then◌else◌}
use capy_js.Prelude.Lists.{length, length-append, take}

-- The code points of a text: its bytes, if it is ASCII.
abbrev pub codes : String → List ℕ
codes String.[] = []
codes (String.◌∷◌ c s) = code c ∷ codes s

abbrev pub crlf : List ℕ
crlf = 13 ∷ 10 ∷ []

-- `%zu` of a number below 10^fuel.
unfoldable pub digits : ℕ → ℕ → List ℕ
digits zero n = []
digits (suc fuel) n =
    let before = digits fuel (n / 10) in
    if ltb n 10 then (48 + n) ∷ [] else before ++ (48 + n % 10) ∷ []

-- A `size_t` has twenty digits at most.
abbrev pub decimal : ℕ → List ℕ
decimal n = digits 20 n

pub length-digits : (fuel n : ℕ) → length (digits fuel n) ≤ fuel
unfolding digits
length-digits zero n = omega arith
length-digits (suc fuel) n =
    ground (
      arith,
      length-digits fuel (n / 10),
      length-append (digits fuel (n / 10)) ((48 + n % 10) ∷ []),
    )

unfoldable pub same_text : List ℕ → List ℕ → Bool
same_text [] [] = true
same_text (x ∷ xs) (y ∷ ys) = x == y && same_text xs ys
same_text _ _ = false

-- `tolower` in the "C" locale.
unfoldable pub lower : ℕ → ℕ
lower c = if leb 65 c && leb c 90 then c + 32 else c

-- `strncasecmp` of the first characters with a text, as long as it: whether they are equal.
unfoldable pub same_but_case : List ℕ → List ℕ → Bool
same_but_case xs text = same_text (map lower (take (length text) xs)) (map lower text)

-- `strcasestr(text, part) != nullptr`
unfoldable pub contains_but_case : List ℕ → List ℕ → Bool
contains_but_case part [] = same_but_case [] part
contains_but_case part (x ∷ xs) = same_but_case (x ∷ xs) part || contains_but_case part xs

pub same_text-eq : (xs ys : List ℕ) → same_text xs ys ≡ true → xs ≡ ys
unfolding same_text
same_text-eq [] [] h = refl
same_text-eq [] (y ∷ ys) h = absurd (false≢true h)
same_text-eq (x ∷ xs) [] h = absurd (false≢true h)
same_text-eq (x ∷ xs) (y ∷ ys) h = ground (arith, same_text-eq xs ys)
