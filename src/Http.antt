-- ===== src/Http.antt =====
-- The header of a response: `build_headers` of src/http_message.cc, and what a script's `setHeader` of
-- src/builtins/response.cc does for it.
use capy_js.Prelude.{
  ℕ, ◌+◌, ◌-◌, ◌%◌, ◌^◌, Bool, true, false, ◌||◌, Option, none, some, List, [], ◌∷◌, ◌++◌, length,
  take, drop, min, ltb, ◌==◌, if◌then◌else◌, add_size, sub_size, size_max,
}
use capy_js.Prelude.Text.{codes, crlf, decimal}
pub mod Fit
pub mod Overrun
pub mod Upgrade
pub mod Routes
pub mod Static
mod Tests

-- `headers` in the order of the map, and the part of `ResponseObject` that its header comes from.
pub record ResponseObject : Type 0 where
  pub response_len : ℕ
  pub headers : List (List ℕ × List ℕ)
  pub header_size : ℕ

-- `header_buf` as it is filled: the bytes written to it, `offset`, and whether a write went past its
-- end.
pub record Buffer : Type 0 where
  pub text : List ℕ
  pub offset : ℕ
  pub overrun : Bool

abbrev pub nothing_written : Buffer
nothing_written = record { text = []; offset = 0; overrun = false }

-- The result of `snprintf` is an `int`: -1, as a `size_t`, for a text that is longer than an `int` counts.
abbrev pub printed : List ℕ → ℕ
printed text = if ltb (length text) (2 ^ 31) then length text else size_max

-- `offset += snprintf(header_buf + offset, header_len - offset, …)`: it writes all but what does not
-- fit in the room left, with a zero byte after it, and counts all; without room it writes nothing.
unfoldable pub print : ℕ → List ℕ → Buffer → Buffer
print header_len text b =
    let room = sub_size header_len b.offset in
    let end = b.offset + min (length text) (room - 1) + 1 in
    record {
      text = b.text ++ take (room - 1) text;
      offset = add_size b.offset (printed text);
      overrun = b.overrun || (if room == 0 then false else ltb header_len end);
    }

-- `"%s: %s\r\n"`
unfoldable pub header_line : List ℕ × List ℕ → List ℕ
header_line (k, v) = k ++ (codes ": " ++ (v ++ crlf))

unfoldable pub print_headers : ℕ → List (List ℕ × List ℕ) → Buffer → Buffer
print_headers header_len [] b = b
print_headers header_len (h ∷ hs) b =
    print_headers header_len hs (print header_len (header_line h) b)

unfoldable pub status_line : List ℕ
status_line = codes "HTTP/1.1 200 OK" ++ crlf

unfoldable pub length_line : ℕ → List ℕ
length_line n = codes "Content-Length: " ++ (decimal n ++ crlf)

unfoldable pub keep_alive : List ℕ
keep_alive = codes "Connection: keep-alive" ++ crlf

unfoldable pub standard_headers : ℕ → List ℕ
standard_headers n = status_line ++ (length_line n ++ keep_alive)

unfoldable pub plain_headers : ℕ → List ℕ
plain_headers n =
    status_line
    ++ (codes "Content-Type: text/plain" ++ (crlf ++ (length_line n ++ (keep_alive ++ crlf))))

-- `none` is the result -1; otherwise `offset` is the result.
unfoldable pub build_headers : ℕ → ResponseObject → Option Buffer
build_headers header_len res =
    if header_len == 0
    then none
    else (if res.header_size == 0
        then some (print header_len (plain_headers res.response_len) nothing_written)
        else some (
            print header_len crlf (
              print_headers header_len res.headers
                (print header_len (standard_headers res.response_len) nothing_written))))

-- `header_len` of `send`: the sum is of two `int`s, wrapped around, and becomes a `size_t`.
unfoldable pub header_room : ResponseObject → ℕ
header_room res =
    let sum = (res.header_size + 256) % 2 ^ 32 in
    if ltb sum (2 ^ 31) then sum else sum + (2 ^ 64 - 2 ^ 32)

-- `res->headers[strdup(header_key)] = strdup(header_val)`: the map is sorted by the addresses of the
-- copies, so the new entry stands at some place `at`.
unfoldable pub insert_at : ℕ → List ℕ × List ℕ → List (List ℕ × List ℕ) → List (List ℕ × List ℕ)
insert_at at h hs = take at hs ++ (h ∷ drop at hs)

unfoldable pub response_set_header : ℕ → List ℕ → List ℕ → ResponseObject → ResponseObject
response_set_header at header_key header_val res = record res {
  headers = insert_at at (header_key, header_val) res.headers;
  header_size = (res.header_size + length header_val) % 2 ^ 32;
}
