-- ===== src/Http/Fit.antt =====
-- A header that fits its buffer.
use capy_js.Prelude.{subst, ℕ, ◌+◌, ◌-◌, ◌<◌, ◌≡◌, refl, arith, ◌∙◌, Bool-cases, inl, inr}
use capy_js.Prelude.{
  false, some, List, [], ◌∷◌, ◌++◌, length, take, take-all, length-append, append_assoc, append-nil,
  ◌==◌, if◌then◌else◌, add_size, sub_size, Bool, true, sym, ◌^◌,
}
use capy_js.Prelude.Text.{crlf}
use capy_js.Http.{
  ResponseObject, Buffer, nothing_written, print, header_line, print_headers, standard_headers,
  plain_headers, build_headers, printed,
}

abbrev pub lines : List (List ℕ × List ℕ) → List ℕ
lines [] = []
lines (h ∷ hs) = header_line h ++ lines hs

abbrev pub is_empty : List (List ℕ × List ℕ) → Bool
is_empty [] = true
is_empty (h ∷ hs) = false

-- The whole header that a response ought to have.
unfoldable pub header_text : ResponseObject → List ℕ
header_text res =
    if is_empty res.headers
    then plain_headers res.response_len
    else standard_headers res.response_len ++ (lines res.headers ++ crlf)

abbrev with_text : Buffer → List ℕ → Buffer
with_text b text = record b { text = b.text ++ text; offset = b.offset + length text }

abbrev written : List ℕ → Buffer
written text = record { text = text; offset = length text; overrun = false }

from_nothing : (text : List ℕ) → with_text nothing_written text ≡ written text
from_nothing text = ground arith

module _ (header_len : ℕ) (word : header_len < 2 ^ 31) where
  print_fits :
      (text : List ℕ) (b : Buffer)
      → b.offset + length text < header_len
      → print header_len text b ≡ with_text b text
  unfolding print
  print_fits text b h =
      let all : take (header_len - b.offset - 1) text ≡ text = take-all _ text (omega arith) in
      let room : sub_size header_len b.offset ≡ header_len - b.offset = omega arith in
      let count : printed text ≡ length text = ground arith in
      let sum : add_size b.offset (length text) ≡ b.offset + length text = omega arith in
      rw (room, all, count, sum) (ground arith)

  print_headers_fit :
      (hs : List (List ℕ × List ℕ)) (b : Buffer)
      → b.offset + length (lines hs) < header_len
      → print_headers header_len hs b ≡ with_text b (lines hs)
  unfolding print_headers
  print_headers_fit [] b h = ground (arith, append-nil b.text)
  print_headers_fit (k ∷ hs) b h =
      let len = length-append (header_line k) (lines hs) in
      let here = print_fits (header_line k) b (omega arith) in
      let rest = print_headers_fit hs (with_text b (header_line k)) (omega arith) in
      rw (here, rest, append_assoc) (ground (arith, len))

  script_fits :
      (first : List ℕ) (hs : List (List ℕ × List ℕ))
      → length (first ++ (lines hs ++ crlf)) < header_len
      → print header_len crlf (print_headers header_len hs (print header_len first nothing_written))
        ≡ written (first ++ (lines hs ++ crlf))
  script_fits first hs h =
      let all = length-append first (lines hs ++ crlf) in
      let some_lines = length-append (lines hs) crlf in
      let some_text = length-append first (lines hs) in
      rw
        (
          print_fits first nothing_written (omega arith),
          print_headers_fit hs (with_text nothing_written first) (omega arith),
          print_fits crlf (with_text (with_text nothing_written first) (lines hs)) (omega arith),
          append_assoc,
        )
        (ground (arith, all, some_lines, some_text))

-- A header that is shorter than its buffer, of less than 2^31 bytes, is written there exactly: the
-- status line, the length of the body, the connection header, the lines of the script's headers in their
-- order and an empty line, and, for a response without headers, the header of plain text. Its length is
-- the result, and nothing is written past the end of the buffer. The condition is that the counted bytes
-- of the values are none only if there are no headers: an only header with an empty value is lost.
pub headers_exact :
    (header_len : ℕ) (res : ResponseObject)
    → header_len < 2 ^ 31
    → (res.header_size == 0) ≡ is_empty res.headers
    → length (header_text res) < header_len
    → build_headers header_len res
      ≡ some record { text = header_text res; offset = length (header_text res); overrun = false }
unfolding build_headers header_text
headers_exact header_len res word counts h = elim (Bool-cases (res.header_size == 0)) [
  | inl e ↦
      let text : header_text res ≡ plain_headers res.response_len =
        rw (header_text, sym counts ∙ e) refl in
      let short : length (plain_headers res.response_len) < header_len =
        subst (λ t. length t < header_len) text h in
      let run : print header_len (plain_headers res.response_len) nothing_written
          ≡ written (plain_headers res.response_len) =
        print_fits header_len word _ nothing_written (omega (arith, short)) ∙ from_nothing _ in
      let some_room : header_len == 0 ≡ false = ground (arith, short) in
      rw (build_headers, some_room, e, run, header_text, sym counts ∙ e) refl
  | inr e ↦
      let first = standard_headers res.response_len in
      let text : header_text res ≡ first ++ (lines res.headers ++ crlf) =
        rw (header_text, sym counts ∙ e) refl in
      let short : length (first ++ (lines res.headers ++ crlf)) < header_len =
        subst (λ t. length t < header_len) text h in
      let run = script_fits header_len word first res.headers short in
      let some_room : header_len == 0 ≡ false = ground (arith, short) in
      rw (build_headers, some_room, e, run, header_text, sym counts ∙ e) refl
]
