-- ===== src/Receive/Tests.antt =====
-- Reads of a small message: the key is 1 2 3 4 and the text is "Hi".
use capy_js.Prelude.{ℕ, ◌≡◌, refl, arith, true, some, List, [], ◌∷◌, ◌++◌}
use capy_js.Ws.{c_string, write_length}
use capy_js.Ws.RoundTrip.{client_frame}
use capy_js.Receive.{fresh, flatten_buffer, read_events, process_web_socket_request, processed}
use capy_js.Receive.Messages.{message_in_pieces, bytes_behind_a_frame_dropped}

abbrev key : List ℕ
key = 1 ∷ 2 ∷ 3 ∷ 4 ∷ []

abbrev hi : List ℕ
hi = 72 ∷ 105 ∷ []

client_frame_bytes : client_frame 1 key hi ≡ 129 ∷ 130 ∷ 1 ∷ 2 ∷ 3 ∷ 4 ∷ 73 ∷ 107 ∷ []
unfolding client_frame write_length
client_frame_bytes = refl

message_in_pieces_example :
    read_events true ((129 ∷ 130 ∷ 1 ∷ []) ∷ (2 ∷ 3 ∷ 4 ∷ 73 ∷ []) ∷ (107 ∷ []) ∷ []) fresh
    ≡ some (c_string hi ∷ [], (129 ∷ 130 ∷ 1 ∷ []) ∷ (2 ∷ 3 ∷ 4 ∷ 73 ∷ []) ∷ (107 ∷ []) ∷ [], fresh)
unfolding client_frame write_length flatten_buffer
message_in_pieces_example =
    message_in_pieces key hi (129 ∷ 130 ∷ 1 ∷ []) ((2 ∷ 3 ∷ 4 ∷ 73 ∷ []) ∷ (107 ∷ []) ∷ []) refl
      (omega arith) (omega arith, (omega arith, tt)) refl

bytes_behind_a_frame_dropped_example :
    let buff = client_frame 1 key hi ++ client_frame 1 key hi in
    process_web_socket_request true buff fresh ≡ processed (some (c_string hi)) (buff ∷ []) fresh
unfolding client_frame write_length
bytes_behind_a_frame_dropped_example =
    bytes_behind_a_frame_dropped key hi (client_frame 1 key hi) refl (omega arith)
