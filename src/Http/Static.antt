-- ===== src/Http/Static.antt =====
-- A file that the server serves without the script: the handler of `server_serve_static` of
-- src/builtins/server_js.cc.
use capy_js.Prelude.{
  Option-cases, subst, ℕ, ◌+◌, ◌%◌, ◌^◌, ◌<◌, ◌≤◌, ◌≡◌, refl, arith, ◌⊎◌, inl, inr, false, Option,
  none, some, List, [], ◌∷◌, ◌++◌, length, length-append, append-nil, ap, sym,
}
use capy_js.Prelude.Text.{codes, crlf, length-digits}
use capy_js.Util.Files.{get_file_extension, get_content_type}
use capy_js.Http.{
  ResponseObject, header_line, standard_headers, status_line, length_line, keep_alive,
  build_headers, header_room,
}
use capy_js.Http.Fit.{header_text, headers_exact}

-- A response that the server has made for a request.
abbrev pub new_response : ResponseObject
new_response = record { response_len = 0; headers = []; header_size = 0 }

-- `size` is that of the mapped file. `none` is a fault: without an extension, `get_content_type` reads
-- from a null pointer.
unfoldable pub serve_static : List ℕ → ℕ → ResponseObject → Option ResponseObject
serve_static fp size res = elim (get_file_extension fp) [
  | none ↦ none
  | some ext ↦ some (record res {
    headers = (codes "Content-Type", get_content_type ext) ∷ res.headers;
    header_size =
        (res.header_size + (length (codes "text/html") + length (codes "Content-Type"))) % 2 ^ 32;
    response_len = size;
  })
]

-- The longest of the content types is that of an icon.
content_type_short : (ext : List ℕ) → length (get_content_type ext) ≤ 24
unfolding get_content_type
content_type_short ext = ground arith

-- The whole header of a file.
abbrev pub static_header : List ℕ → ℕ → List ℕ
static_header ext size =
    standard_headers size ++ (header_line (codes "Content-Type", get_content_type ext) ++ crlf)

static_header_short : (ext : List ℕ) (size : ℕ) → length (static_header ext size) < 277
unfolding standard_headers status_line length_line keep_alive header_line
static_header_short ext size =
    let digits_short = length-digits 20 size in
    let type_short = content_type_short ext in
    simp length-append (omega (arith, digits_short, type_short))

abbrev file_response : List ℕ → ℕ → ResponseObject
file_response ext size = record {
  response_len = size;
  headers = (codes "Content-Type", get_content_type ext) ∷ [];
  header_size = 21;
}

file_header :
    (ext : List ℕ) (size : ℕ) → header_text (file_response ext size) ≡ static_header ext size
unfolding header_text
file_header ext size =
    ap (λ l. standard_headers size ++ (l ++ crlf))
      (append-nil (header_line (codes "Content-Type", get_content_type ext)))

exact_room :
    (ext : List ℕ) (size : ℕ)
    → build_headers (header_room (file_response ext size)) (file_response ext size)
      ≡ some record {
        text = static_header ext size;
        offset = length (static_header ext size);
        overrun = false;
      }
unfolding header_room
exact_room ext size =
    let text = file_header ext size in
    let short : length (header_text (file_response ext size)) < 277 =
      subst (λ t. length t < 277) (sym text) (static_header_short ext size) in
    subst
      (λ t.
        build_headers 277 (file_response ext size)
        ≡ some record { text = t; offset = length t; overrun = false })
      text (headers_exact 277 (file_response ext size) (omega arith) refl short)

-- A file with an extension is served, and its header is exact, whatever the length of the file and its
-- type: the room that the handler asks for is enough although it counts the type as "text/html" always.
-- A file name without an extension makes the handler fault.
pub static_header_exact :
    (fp : List ℕ) (size : ℕ)
    → ((get_file_extension fp ≡ none) × (serve_static fp size new_response ≡ none))
      ⊎ ((ext : List ℕ) × (res : ResponseObject) × (get_file_extension fp ≡ some ext)
          × (serve_static fp size new_response ≡ some res)
          × (build_headers (header_room res) res
              ≡ some record {
                text = static_header ext size;
                offset = length (static_header ext size);
                overrun = false;
              }))
unfolding serve_static
static_header_exact fp size = elim (Option-cases (get_file_extension fp)) [
  | inl bare ↦ inl (bare, rw (serve_static, bare) refl)
  | inr (ext, named) ↦
      inr (ext, file_response ext size, named, rw (serve_static, named) refl, exact_room ext size)
]
