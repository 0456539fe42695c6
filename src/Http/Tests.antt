-- ===== src/Http/Tests.antt =====
-- Headers at fixed inputs, and the theorems applied to them.
use capy_js.Prelude.{◌⊎◌, none, refl, ℕ, ◌≡◌, arith, true, false, some, List, [], ◌∷◌, length}
use capy_js.Prelude.Text.{codes, digits, same_text, lower, same_but_case, contains_but_case}
use capy_js.Http.{
  ResponseObject, Buffer, build_headers, header_room, header_line, standard_headers, status_line,
  length_line, keep_alive,
}
use capy_js.Ws.{c_string}
use capy_js.Http.Upgrade.{Header, parse_ws_upgrade, see_headers, see_header, is_named}
use capy_js.Http.Routes.{
  HttpContext, called, dispatch, register_api_function, invoke_function, find, assign,
  dispatch-register,
}
use capy_js.Http.Fit.{header_text, headers_exact}
use capy_js.Http.Static.{serve_static, new_response, static_header, static_header_exact}
use capy_js.Util.Files.{get_file_extension, strrchr, later_of, get_content_type, starts_with}
use capy_js.Http.Overrun.{set_headers, no_headers, set_headers_overrun}

abbrev one_header : ResponseObject
one_header = record {
  response_len = 5;
  headers = (codes "X-Id", codes "abc") ∷ [];
  header_size = 3;
}

headers_exact_example :
    build_headers 259 one_header
    ≡ some record {
      text = header_text one_header;
      offset = length (header_text one_header);
      overrun = false;
    }
unfolding header_text standard_headers header_line status_line length_line digits keep_alive
headers_exact_example = headers_exact 259 one_header (omega arith) refl (omega arith)

-- Seven short headers with keys of 26 bytes.
abbrev long_key : List ℕ
long_key = codes "Access-Control-Allow-Extra"

abbrev calls : List (ℕ × (List ℕ × List ℕ))
calls =
    (0, (long_key, codes "a"))
    ∷ (1, (long_key, codes "b"))
    ∷ (0, (long_key, codes "c"))
    ∷ (2, (long_key, codes "d"))
    ∷ (0, (long_key, codes "e"))
    ∷ (1, (long_key, codes "f"))
    ∷ (3, (long_key, codes "g"))
    ∷ []

set_headers_overrun_example :
    (b : Buffer) × (build_headers
        (header_room (set_headers calls (no_headers 5)))
        (set_headers calls (no_headers 5))
      ≡ some b)
    × (b.overrun ≡ true)
unfolding standard_headers status_line length_line digits keep_alive
set_headers_overrun_example = set_headers_overrun 5 calls (omega arith) (omega arith)

-- Two routes, and a request whose path is longer than that of the first.
abbrev ctx : HttpContext ℕ ℕ
ctx = record {
  routes = ((codes "GET", codes "/a"), 1) ∷ ((codes "POST", codes "/a"), 2) ∷ [];
  ws_routes = [];
}

dispatch-register_example :
    dispatch ℕ ℕ
      (codes "GET")
      (codes "/b")
      (register_api_function ℕ ℕ (codes "GET") (codes "/b") 3 ctx)
    ≡ called 3
unfolding same_text
dispatch-register_example =
    dispatch-register ℕ ℕ (codes "GET") (codes "/b") (codes "GET") (codes "/b") 3 ctx

registered_twice :
    dispatch ℕ ℕ
      (codes "GET")
      (codes "/a")
      (register_api_function ℕ ℕ (codes "GET") (codes "/a") 3 ctx)
    ≡ called 3
unfolding same_text dispatch register_api_function invoke_function find assign
registered_twice = refl

-- The upgrade of RFC 6455, with names in any case.
abbrev upgrade_headers : List Header
upgrade_headers =
    record { name = codes "UPGRADE"; value = codes "WebSocket" }
    ∷ record { name = codes "connection"; value = codes "keep-alive, Upgrade" }
    ∷ record { name = codes "Sec-WebSocket-Key"; value = codes "dGhlIHNhbXBsZSBub25jZQ==" }
    ∷ []

upgrade_is_seen : (parse_ws_upgrade upgrade_headers).is_upgrade ≡ true
unfolding parse_ws_upgrade see_headers see_header is_named same_but_case contains_but_case same_text
    lower c_string
upgrade_is_seen = refl

static_header_exact_example :
    ((get_file_extension (codes "./a.html") ≡ none)
      × (serve_static (codes "./a.html") 12 new_response ≡ none))
    ⊎ ((ext : List ℕ) × (res : ResponseObject) × (get_file_extension (codes "./a.html") ≡ some ext)
        × (serve_static (codes "./a.html") 12 new_response ≡ some res)
        × (build_headers (header_room res) res
            ≡ some record {
              text = static_header ext 12;
              offset = length (static_header ext 12);
              overrun = false;
            }))
static_header_exact_example = static_header_exact (codes "./a.html") 12

type_of_page :
    (res : ResponseObject) × (serve_static (codes "./a.html") 12 new_response ≡ some res)
    × (res.headers ≡ (codes "Content-Type", codes "text/html") ∷ [])
unfolding serve_static get_file_extension strrchr later_of get_content_type starts_with same_text
type_of_page = (_, refl, refl)

no_type : serve_static (codes "./Makefile") 12 new_response ≡ none
unfolding serve_static get_file_extension strrchr later_of
no_type = refl
