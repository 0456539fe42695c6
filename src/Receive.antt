-- ===== src/Receive.antt =====
-- What a connection has received: the buffer operations of include/client_op.h, `onMessage` of
-- src/ws.cc, and `process_web_socket_request` of src/server.cc.
use capy_js.Prelude.{
  ℕ, ◌+◌, ◌%◌, ◌^◌, Bool, true, false, Option, none, some, List, [], ◌∷◌, ◌++◌, length, take, drop,
  ltb, leb, ◌==◌, ◌||◌, ◌&&◌, if◌then◌else◌,
}
use capy_js.Ws.{Parsed, more, overrun, returned, parse_frame, c_string}
pub mod Messages
mod Tests

-- The linked list from `recv_head` to `recv_tail`, each buffer by the `len` bytes that it holds, and
-- the two counters.
pub record Client : Type 0 where
  pub recv : List (List ℕ)
  pub recv_count : ℕ
  pub recv_len : ℕ

abbrev pub fresh : Client
fresh = record { recv = []; recv_count = 0; recv_len = 0 }

-- The sum in an `int`: as its bit pattern.
unfoldable pub recv_new_buffer : List ℕ → Client → Client
recv_new_buffer buff client = record {
  recv = client.recv ++ buff ∷ [];
  recv_count = (client.recv_count + 1) % 2 ^ 64;
  recv_len = (client.recv_len + length buff) % 2 ^ 32;
}

-- With the buffers that go back to the pool, in order.
unfoldable pub clear_buffer : Client → List (List ℕ) × Client
clear_buffer client = (client.recv, fresh)

unfoldable pub flatten_buffer : List (List ℕ) → List ℕ
flatten_buffer [] = []
flatten_buffer (buff ∷ rest) = buff ++ flatten_buffer rest

-- What a call does: it leaves its buffer, or returns with the message that it hands to the script, if
-- any.
pub data Heard : Type 0 where
  astray : Heard
  heard : ℕ → Option (List ℕ) → Heard

-- `handled` is `JS_IsFunction(onmessage)`; the string ends at its first zero byte, as it goes through
-- `c_str()`.
unfoldable pub on_parsed : Bool → Parsed → Heard
on_parsed handled more = heard 0 none
on_parsed handled overrun = astray
on_parsed handled (returned total frame bytes) =
    if total == 0
    then heard 0 none
    else (if handled && frame.opcode == 1
        then (if ltb (length bytes) (frame.payload + frame.len)
            then astray
            else heard total (some (c_string (take frame.len (drop frame.payload bytes)))))
        else heard total none)

unfoldable pub on_message : Bool → List ℕ → Heard
on_message handled buffer = on_parsed handled (parse_frame buffer)

-- What a read event comes to: a failed allocation or an access out of bounds, or the message handed
-- on with the buffers given back.
pub data Processed : Type 0 where
  broken : Processed
  processed : Option (List ℕ) → List (List ℕ) → Client → Processed

unfoldable pub after_message : Client → Heard → Processed
after_message client astray = broken
after_message client (heard rc message) =
    if rc == 0
    then processed message [] client
    else (let (released, cleared) = clear_buffer client in processed message released cleared)

unfoldable pub process_web_socket_request : Bool → List ℕ → Client → Processed
process_web_socket_request handled buff before =
    let client = recv_new_buffer buff before in
    let buffer_data = flatten_buffer client.recv in
    if leb (2 ^ 31) client.recv_len || ltb client.recv_len (length buffer_data)
    then broken
    else after_message client (on_message handled buffer_data)

abbrev pub said : Option (List ℕ) → List (List ℕ)
said none = []
said (some m) = m ∷ []

-- The read events of a connection one after the other, with what the script has heard and what the
-- pool has got back: `none` as soon as one of them breaks.
unfoldable pub read_events :
    Bool → List (List ℕ) → Client → Option (List (List ℕ) × List (List ℕ) × Client)
read_events handled [] client = some ([], [], client)
read_events handled (buff ∷ buffs) client = elim (process_web_socket_request handled buff client) [
  | broken ↦ none
  | processed message released next ↦ elim (read_events handled buffs next) [
    | none ↦ none
    | some (messages, given_back, last) ↦
        some (said message ++ messages, released ++ given_back, last)
  ]
]
