-- ===== src/Http/Overrun.antt =====
-- The size of the buffer that `send` takes for a header: the bytes of the values, and 256.
use capy_js.Prelude.{ℕ, zero, suc, ◌+◌, ◌%◌, ◌^◌, ◌<◌, ◌≡◌, ◌∙◌, refl, ap, arith, true, ◌||◌, some}
use capy_js.Prelude.{List, [], ◌∷◌, ◌++◌, length, length-append, ltb}
use capy_js.Prelude.Text.{codes, crlf, decimal, length-digits}
use capy_js.Http.{
  ResponseObject, Buffer, nothing_written, print, header_line, print_headers, standard_headers,
  build_headers, header_room, printed, status_line, length_line, keep_alive, insert_at,
  response_set_header,
}
use capy_js.Http.Fit.{lines}

-- A response after some calls of `setHeader`, each with the place its entry takes in the map.
abbrev pub set_headers : List (ℕ × (List ℕ × List ℕ)) → ResponseObject → ResponseObject
set_headers [] res = res
set_headers ((at, (k, v)) ∷ calls) res = set_headers calls (response_set_header at k v res)

-- The bytes of the values, and those of the keys with `": "` and the end of the line.
abbrev pub value_bytes : List (ℕ × (List ℕ × List ℕ)) → ℕ
value_bytes [] = 0
value_bytes ((at, (k, v)) ∷ calls) = length v + value_bytes calls

abbrev pub key_bytes : List (ℕ × (List ℕ × List ℕ)) → ℕ
key_bytes [] = 0
key_bytes ((at, (k, v)) ∷ calls) = length k + 4 + key_bytes calls

length-lines-insert :
    (at : ℕ) (h : List ℕ × List ℕ) (hs : List (List ℕ × List ℕ))
    → length (lines (insert_at at h hs)) ≡ length (header_line h) + length (lines hs)
unfolding insert_at
length-lines-insert zero h hs = length-append (header_line h) (lines hs)
length-lines-insert (suc at) h [] = length-append (header_line h) []
length-lines-insert (suc at) h (g ∷ hs) =
    let a = length-append (header_line g) (lines (insert_at at h hs)) in
    let b = length-append (header_line g) (lines hs) in
    omega (arith, a, b, length-lines-insert at h hs)

length-header_line : (k v : List ℕ) → length (header_line (k, v)) ≡ length k + 4 + length v
unfolding header_line
length-header_line k v =
    let a = length-append k (codes ": " ++ (v ++ crlf)) in
    let b = length-append v crlf in ground (arith, a, b)

length-set_headers :
    (calls : List (ℕ × (List ℕ × List ℕ))) (res : ResponseObject)
    → res.header_size + value_bytes calls < 2 ^ 32
    → let after = set_headers calls res in
      (after.response_len ≡ res.response_len)
      × (after.header_size ≡ res.header_size + value_bytes calls)
      × (length (lines after.headers)
          ≡ length (lines res.headers) + value_bytes calls + key_bytes calls)
unfolding response_set_header
length-set_headers [] res h = (refl, omega arith, omega arith)
length-set_headers ((at, (k, v)) ∷ calls) res h =
    let rest = length-set_headers calls (response_set_header at k v res) (omega arith) in
    let size : (res.header_size + length v) % 2 ^ 32 ≡ res.header_size + length v = omega arith in
    let line = length-header_line k v in
    let put = length-lines-insert at (k, v) res.headers in
    (rest.0, omega (arith, rest.1, size), omega (arith, rest.2, line, put))

module _ (header_len : ℕ) (small : header_len < 2 ^ 63) where
  -- Bytes past the end are written only once `offset` is past it.
  abbrev Told : Buffer → Type 0
  Told b = b.overrun ≡ true → header_len < b.offset

  print_offset :
      (text : List ℕ) (b : Buffer)
      → b.offset + length text < 2 ^ 31
      → ((print header_len text b).offset ≡ b.offset + length text)
        × (0 < length text
            → (print header_len text b).overrun ≡ (b.overrun || ltb header_len b.offset))
  unfolding print
  print_offset text b h =
      let count : printed text ≡ length text = ground (arith, h) in
      (rw count (omega arith), λ some_text. ground (arith, some_text))

  print_headers_offset :
      (hs : List (List ℕ × List ℕ)) (b : Buffer)
      → Told b
      → b.offset + length (lines hs) < 2 ^ 31
      → ((print_headers header_len hs b).offset ≡ b.offset + length (lines hs))
        × Told (print_headers header_len hs b)
  unfolding print_headers
  print_headers_offset [] b told h = (omega arith, told)
  print_headers_offset (k ∷ hs) b told h =
      let len = length-append (header_line k) (lines hs) in
      let (offset, overrun) = print_offset (header_line k) b (omega arith) in
      let line = length-header_line k.0 k.1 in
      let told' : Told (print header_len (header_line k) b) =
        λ e. ground (arith, overrun (omega arith)) in
      let rest = print_headers_offset hs (print header_len (header_line k) b) told' (omega arith) in
      (omega (arith, rest.0), rest.1)

  -- What is told after the last line is told of the whole header.
  script_overrun :
      (first : List ℕ) (hs : List (List ℕ × List ℕ))
      → 0 < length first
      → length first + length (lines hs) + 2 < 2 ^ 31
      → (print header_len crlf
          (print_headers header_len hs (print header_len first nothing_written))).overrun
        ≡ ltb header_len (length first + length (lines hs))
  script_overrun first hs h short =
      let (offset, overrun) = print_offset first nothing_written (omega arith) in
      let told : Told (print header_len first nothing_written) = λ e. ground (arith, overrun h) in
      let (at_end, told') =
        print_headers_offset hs (print header_len first nothing_written) told (omega arith) in
      let last =
        print_offset crlf (print_headers header_len hs (print header_len first nothing_written))
          (omega arith) in
      ground (arith, last.1 (omega arith), told', at_end, offset)

length-standard_headers :
    (n : ℕ) → (0 < length (standard_headers n)) × (length (standard_headers n) < 256)
unfolding standard_headers status_line length_line keep_alive
length-standard_headers n =
    let digits_max = length-digits 20 n in
    let a = length-append (decimal n ++ crlf) keep_alive in
    let b = length-append (decimal n) crlf in (omega arith, omega (arith, digits_max, a, b))

abbrev pub no_headers : ℕ → ResponseObject
no_headers response_len = record { response_len = response_len; headers = []; header_size = 0 }

built :
    (res : ResponseObject)
    → 0 < res.header_size
    → 0 < header_room res
    → build_headers (header_room res) res
      ≡ some (
          print (header_room res) crlf (
            print_headers
              (header_room res)
              res.headers
              (print (header_room res) (standard_headers res.response_len) nothing_written)))
unfolding build_headers
built res some_value room = ground (arith, some_value, room)

-- After calls of `setHeader` on a new response, with some byte in a value and less than 2^31 - 512
-- bytes in all, four more counted for each call, the header is written past the end of its buffer exactly when the fixed lines and the keys,
-- with four more bytes for each, are longer than 256 bytes: the room is counted by the values alone.
pub set_headers_overrun :
    (response_len : ℕ) (calls : List (ℕ × (List ℕ × List ℕ)))
    → 0 < value_bytes calls
    → value_bytes calls + key_bytes calls + 512 < 2 ^ 31
    → let res = set_headers calls (no_headers response_len) in
      (b : Buffer) × (build_headers (header_room res) res ≡ some b)
      × (b.overrun ≡ ltb 256 (length (standard_headers response_len) + key_bytes calls))
unfolding build_headers header_room
set_headers_overrun response_len calls some_value short =
    let res = set_headers calls (no_headers response_len) in
    let (same, size, len) = length-set_headers calls (no_headers response_len) (omega arith) in
    let room : header_room res ≡ value_bytes calls + 256 = ground (arith, size, short) in
    let first : standard_headers res.response_len ≡ standard_headers response_len =
      ap standard_headers same in
    let run : build_headers (header_room res) res
        ≡ some (
            print (header_room res) crlf (
              print_headers (header_room res) res.headers
                (print (header_room res) (standard_headers res.response_len) nothing_written))) =
      built res (omega (arith, size, some_value)) (omega (arith, room)) in
    let fixed = length-standard_headers res.response_len in
    let over =
      script_overrun (header_room res) (omega (arith, room)) (standard_headers res.response_len)
        res.headers (omega (arith, fixed)) (omega (arith, fixed, len)) in
    let told : ltb (header_room res)
          (length (standard_headers res.response_len) + length (lines res.headers))
        ≡ ltb 256 (length (standard_headers response_len) + key_bytes calls) =
      ground (arith, room, ap length first, len) in
    (_, run, over ∙ told)
