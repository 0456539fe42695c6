-- ===== src/Http/Upgrade.antt =====
-- `parseWSUpgrade` of src/server.cc, on the headers that picohttpparser finds.
use capy_js.Prelude.{ℕ, Bool, true, false, not, ◌&&◌, List, [], ◌∷◌, length, ◌==◌, if◌then◌else◌}
use capy_js.Prelude.Text.{codes, same_but_case, contains_but_case}
use capy_js.Ws.{c_string}

pub record Header : Type 0 where
  pub name : List ℕ
  pub value : List ℕ

pub record WsUpgradeInfo : Type 0 where
  pub is_upgrade : Bool
  pub key : List ℕ
  pub version : List ℕ
  pub protocol : List ℕ

-- `info`, and the two flags of the loop.
pub record Seen : Type 0 where
  pub has_upgrade : Bool
  pub has_connection : Bool
  pub info : WsUpgradeInfo

-- `name.size() == n && strncasecmp(name.c_str(), text, n) == 0` for a text of `n` characters
unfoldable pub is_named : List ℕ → Header → Bool
is_named text h = length h.name == length text && same_but_case h.name text

unfoldable pub see_header : Header → Seen → Seen
see_header h s =
    if is_named (codes "Upgrade") h
    then record s { has_upgrade = same_but_case (c_string h.value) (codes "websocket") }
    else (if is_named (codes "Connection") h
        then record s { has_connection = contains_but_case (codes "upgrade") (c_string h.value) }
        else (if is_named (codes "Sec-WebSocket-Key") h
            then record s { info = record s.info { key = h.value } }
            else (if is_named (codes "Sec-WebSocket-Version") h
                then record s { info = record s.info { version = h.value } }
                else (if is_named (codes "Sec-WebSocket-Protocol") h
                    then record s { info = record s.info { protocol = h.value } }
                    else s))))

unfoldable pub see_headers : List Header → Seen → Seen
see_headers [] s = s
see_headers (h ∷ hs) s = see_headers hs (see_header h s)

abbrev pub is_empty : List ℕ → Bool
is_empty [] = true
is_empty (c ∷ cs) = false

abbrev pub nothing_seen : Seen
nothing_seen = record {
  has_upgrade = false;
  has_connection = false;
  info = record { is_upgrade = false; key = []; version = []; protocol = [] };
}

unfoldable pub parse_ws_upgrade : List Header → WsUpgradeInfo
parse_ws_upgrade headers =
    let s = see_headers headers nothing_seen in
    record s.info { is_upgrade = s.has_upgrade && s.has_connection && not (is_empty s.info.key) }
