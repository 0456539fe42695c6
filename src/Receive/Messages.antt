-- ===== src/Receive/Messages.antt =====
-- A message of a client, however its frame is cut into reads.
use capy_js.Prelude.{ℕ, suc, ◌+◌, ◌%◌, ◌^◌, ◌<◌, ◌≡◌, refl, arith, sym, ap, ◌∙◌}
use capy_js.Prelude.{
  true, false, none, some, Option, List, [], ◌∷◌, ◌++◌, length, take, length-append, append_assoc,
  append-nil, take-append_exact, All, ltb, leb, ◌==◌,
}
use capy_js.Ws.{write_length, c_string}
use capy_js.Ws.RoundTrip.{client_frame, length-client_frame, client_frame_parses}
use capy_js.Ws.Pieces.{part_of_frame_waits}
use capy_js.Receive.{
  Client, fresh, recv_new_buffer, flatten_buffer, clear_buffer, heard, on_message, on_parsed,
  after_message, said, processed, process_web_socket_request, read_events,
}

flatten-append :
    (xs ys : List (List ℕ)) → flatten_buffer (xs ++ ys) ≡ flatten_buffer xs ++ flatten_buffer ys
unfolding flatten_buffer
flatten-append [] ys = refl
flatten-append (x ∷ xs) ys =
    ap (λ l. x ++ l) (flatten-append xs ys)
    ∙ sym (append_assoc x (flatten_buffer xs) (flatten_buffer ys))

-- `onMessage` on a frame of text, with bytes behind it, and on a part of a frame.
on_message-whole :
    (key text rest : List ℕ)
    → length key ≡ 4
    → length text < 2 ^ 63
    → on_message true (client_frame 1 key text ++ rest)
      ≡ heard (length (client_frame 1 key text)) (some (c_string text))
unfolding on_message on_parsed
on_message-whole key text rest four fits =
    let (buffer, parsed, behind, same) =
      client_frame_parses 1 key text rest (omega arith) four fits in
    let size = length-client_frame 1 key text four in
    let some_bytes : (length (client_frame 1 key text) == 0) ≡ false = ground (arith, size) in
    let offset = suc (length (write_length (length text))) + 4 in
    let inside : ltb (length buffer) (offset + length text) ≡ false =
      ground (arith, size, length-append (client_frame 1 key text) rest) in
    rw (parsed, some_bytes, inside, behind, take-append_exact text rest) refl

on_message-part :
    (key text : List ℕ) (n : ℕ)
    → length key ≡ 4
    → length text < 2 ^ 63
    → n < length (client_frame 1 key text)
    → on_message true (take n (client_frame 1 key text)) ≡ heard 0 none
unfolding on_message on_parsed
on_message-part key text n four fits h = rw (part_of_frame_waits 1 key text n four fits h) refl

-- One read event, where the counters agree with the buffers.
abbrev Held : List (List ℕ) → Client → Type 0
Held buffs client = (client.recv ≡ buffs) × (client.recv_len ≡ length (flatten_buffer buffs))

process_lem :
    (buffs : List (List ℕ)) (buff : List ℕ) (client : Client)
    → Held buffs client
    → length (flatten_buffer (buffs ++ buff ∷ [])) < 2 ^ 31
    → Held (buffs ++ buff ∷ []) (recv_new_buffer buff client)
      × (process_web_socket_request true buff client
          ≡ after_message
              (recv_new_buffer buff client)
              (on_message true (flatten_buffer (buffs ++ buff ∷ []))))
unfolding process_web_socket_request recv_new_buffer flatten_buffer
process_lem buffs buff client (same, counted) small =
    let size : length (flatten_buffer (buffs ++ buff ∷ []))
        ≡ length (flatten_buffer buffs) + length buff =
      rw (flatten-append buffs (buff ∷ []), append-nil)
        (length-append (flatten_buffer buffs) buff) in
    let sum : (client.recv_len + length buff) % 2 ^ 32
        ≡ length (flatten_buffer (buffs ++ buff ∷ [])) =
      omega (arith, size, counted) in
    let low : leb (2 ^ 31) (length (flatten_buffer (buffs ++ buff ∷ []))) ≡ false = ground arith in
    let room : ltb (length (flatten_buffer (buffs ++ buff ∷ [])))
          (length (flatten_buffer (buffs ++ buff ∷ [])))
        ≡ false =
      ground arith in
    rw (same, sum, low, room) ((refl, refl), refl)

next_event :
    (buff : List ℕ) (buffs : List (List ℕ)) (client : Client) (message : Option (List ℕ))
    {messages given_back released : List (List ℕ)} {next last : Client}
    → process_web_socket_request true buff client ≡ processed message released next
    → read_events true buffs next ≡ some (messages, given_back, last)
    → read_events true (buff ∷ buffs) client
      ≡ some (said message ++ messages, released ++ given_back, last)
unfolding read_events
next_event buff buffs client message p q = rw (p, read_events, q) refl

module _ (key text : List ℕ) (four : length key ≡ 4)
    (bound : length (client_frame 1 key text) < 2 ^ 31) where
  frame : List ℕ
  frame = client_frame 1 key text

  fits : length text < 2 ^ 63
  fits = omega (arith, length-client_frame 1 key text four)

  -- The read that brings the last of the frame, with bytes of the next behind it perhaps.
  last_read :
      (seen : List (List ℕ)) (buff rest : List ℕ) (client : Client)
      → Held seen client
      → flatten_buffer (seen ++ buff ∷ []) ≡ client_frame 1 key text ++ rest
      → length (client_frame 1 key text ++ rest) < 2 ^ 31
      → process_web_socket_request true buff client
        ≡ processed (some (c_string text)) (seen ++ buff ∷ []) fresh
  unfolding after_message clear_buffer
  last_read seen buff rest client held e small =
      let (held', step) = process_lem seen buff client held (rw e small) in
      let size = length-client_frame 1 key text four in
      let some_bytes : (length (client_frame 1 key text) == 0) ≡ false = ground (arith, size) in
      rw (step, e, on_message-whole key text rest four fits, some_bytes, held'.0) refl

  -- A read that leaves some of it out.
  early_read :
      (seen : List (List ℕ)) (buff behind : List ℕ) (client : Client)
      → Held seen client
      → flatten_buffer (seen ++ buff ∷ []) ++ behind ≡ client_frame 1 key text
      → 0 < length behind
      → process_web_socket_request true buff client
        ≡ processed none [] (recv_new_buffer buff client)
  unfolding after_message
  early_read seen buff behind client held e more_to_come =
      let here = flatten_buffer (seen ++ buff ∷ []) in
      let size : length here + length behind ≡ length (client_frame 1 key text) =
        sym (length-append here behind) ∙ ap length e in
      let (held', step) = process_lem seen buff client held (omega (arith, size)) in
      let prefix : here ≡ take (length here) (client_frame 1 key text) =
        sym (take-append_exact here behind) ∙ ap (take (length here)) e in
      let waits = on_message-part key text (length here) four fits (omega (arith, size)) in
      rw step
        (ap (after_message (recv_new_buffer buff client)) (ap (on_message true) prefix ∙ waits))

  pieces :
      (seen : List (List ℕ)) (buff : List ℕ) (buffs : List (List ℕ)) (client : Client)
      → Held seen client
      → All (λ b. 0 < length b) buffs
      → flatten_buffer (seen ++ buff ∷ []) ++ flatten_buffer buffs ≡ client_frame 1 key text
      → read_events true (buff ∷ buffs) client
        ≡ some (c_string text ∷ [], seen ++ buff ∷ buffs, fresh)
  unfolding read_events flatten_buffer
  pieces seen buff [] client held h e =
      let e' =
        sym (append-nil (flatten_buffer (seen ++ buff ∷ [])))
        ∙ e
        ∙ sym (append-nil (client_frame 1 key text)) in
      let whole =
        last_read seen buff [] client held e' (rw (append-nil (client_frame 1 key text)) bound) in
      next_event buff [] client (some (c_string text)) whole refl
      ∙ ap (λ l. some (c_string text ∷ [], l, fresh)) (append-nil (seen ++ buff ∷ []))
  pieces seen buff (next ∷ buffs) client held (h, hs) e =
      let behind = next ++ flatten_buffer buffs in
      let step =
        early_read seen buff behind client held e
          (omega (arith, length-append next (flatten_buffer buffs))) in
      let here = flatten_buffer (seen ++ buff ∷ []) in
      let size : length here + length behind ≡ length (client_frame 1 key text) =
        sym (length-append here behind) ∙ ap length e in
      let (held', _) = process_lem seen buff client held (omega (arith, size)) in
      let joined : flatten_buffer ((seen ++ buff ∷ []) ++ next ∷ []) ++ flatten_buffer buffs
          ≡ client_frame 1 key text =
        ap (λ l. l ++ flatten_buffer buffs) (flatten-append (seen ++ buff ∷ []) (next ∷ []))
        ∙ ap (λ l. (here ++ l) ++ flatten_buffer buffs) (append-nil next)
        ∙ append_assoc here next (flatten_buffer buffs)
        ∙ e in
      next_event buff (next ∷ buffs) client none step
        (pieces (seen ++ buff ∷ []) next buffs (recv_new_buffer buff client) held' hs joined)
      ∙ ap (λ l. some (c_string text ∷ [], l, fresh)) (append_assoc seen (buff ∷ []) (next ∷ buffs))

-- A text message of a client reaches the script exactly once and as sent, up to its first zero byte,
-- however its masked frame is cut into reads: nothing is handed on before the last read, and then
-- every buffer goes back to the pool and the connection holds nothing. The reads are not empty, the
-- frame has fewer than 2^31 bytes, and the script has a handler.
pub message_in_pieces :
    (key text : List ℕ) (buff : List ℕ) (buffs : List (List ℕ))
    → length key ≡ 4
    → length (client_frame 1 key text) < 2 ^ 31
    → All (λ b. 0 < length b) buffs
    → flatten_buffer (buff ∷ buffs) ≡ client_frame 1 key text
    → read_events true (buff ∷ buffs) fresh ≡ some (c_string text ∷ [], buff ∷ buffs, fresh)
unfolding flatten_buffer
message_in_pieces key text buff buffs four bound filled e =
    pieces key text four bound [] buff buffs fresh (refl, refl) filled
      (ap (λ l. l ++ flatten_buffer buffs) (append-nil buff) ∙ e)

-- Bytes that one read brings behind a whole frame are dropped with it: the script hears the first
-- message, and the connection holds nothing of what follows.
pub bytes_behind_a_frame_dropped :
    (key text rest : List ℕ)
    → length key ≡ 4
    → length (client_frame 1 key text ++ rest) < 2 ^ 31
    → let buff = client_frame 1 key text ++ rest in
      process_web_socket_request true buff fresh
      ≡ processed (some (c_string text)) (buff ∷ []) fresh
unfolding flatten_buffer
bytes_behind_a_frame_dropped key text rest four bound =
    let buff = client_frame 1 key text ++ rest in
    last_read key text four (omega (arith, length-append (client_frame 1 key text) rest)) [] buff
      rest fresh (refl, refl) (append-nil buff) bound
