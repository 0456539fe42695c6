-- ===== src/Util/Files.antt =====
-- `get_file_extension` and `get_content_type` of src/util.cc.
use capy_js.Prelude.{
  ℕ, suc, ◌+◌, Bool, false, ◌||◌, Option, none, some, List, [], ◌∷◌, take, drop, length, ltb, ◌==◌,
  if◌then◌else◌,
}
use capy_js.Prelude.Text.{codes, same_text}

-- `strrchr`, for a character that is not the zero at the end.
unfoldable pub strrchr : ℕ → List ℕ → Option ℕ
strrchr c [] = none
strrchr c (x ∷ xs) = elim (strrchr c xs) [
  | some i ↦ some (suc i)
  | none ↦ if x == c then some 0 else none
]

-- The later of two pointers into the name, where the null pointer is the first of all.
unfoldable pub later_of : Option ℕ → Option ℕ → Option ℕ
later_of none backslash = backslash
later_of (some i) none = some i
later_of (some i) (some j) = if ltb j i then some i else some j

-- `last_sep && dot < last_sep`
abbrev pub is_before : ℕ → Option ℕ → Bool
is_before dot none = false
is_before dot (some last_sep) = ltb dot last_sep

unfoldable pub get_file_extension : List ℕ → Option (List ℕ)
get_file_extension filename = elim (strrchr 46 filename) [
  | none ↦ none
  | some dot ↦
      let last_sep = later_of (strrchr 47 filename) (strrchr 92 filename) in
      if is_before dot last_sep || dot == 0 then none else some (drop (dot + 1) filename)
]

-- `strncmp(ext, text, n) == 0` for a text of `n` characters
unfoldable pub starts_with : List ℕ → List ℕ → Bool
starts_with text ext = same_text (take (length text) ext) text

unfoldable pub get_content_type : List ℕ → List ℕ
get_content_type ext =
    if starts_with (codes "js") ext
    then codes "text/javascript"
    else (if starts_with (codes "html") ext
        then codes "text/html"
        else (if starts_with (codes "ico") ext
            then codes "image/vnd.microsoft.icon"
            else (if starts_with (codes "css") ext
                then codes "text/css"
                else codes "text/plaintext")))
