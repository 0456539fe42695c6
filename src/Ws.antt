-- ===== src/Ws.antt =====
-- WebSocket frames: `parseFrame` and `sendFrame` of src/ws.cc.
use capy_js.Prelude.{ℕ, zero, suc, ◌+◌, ◌*◌, ◌/◌, ◌%◌, ◌^◌, bit_and, bit_or, bit_xor}
use capy_js.Prelude.{Bool, true, false, not, Option, none, some, List, [], ◌∷◌, ◌++◌}
use capy_js.Prelude.{ltb, leb, ◌==◌, if◌then◌else◌, length, get_or, take, drop, size_mod, add_size}
pub mod Masking
pub mod Length
pub mod Frames
pub mod RoundTrip
pub mod Overrun
pub mod Pieces
mod Tests

-- `payload` is the offset of the pointer into the buffer.
pub record Frame : Type 0 where
  pub fin : Bool
  pub opcode : ℕ
  pub payload : ℕ
  pub len : ℕ

-- What a call of `parseFrame` comes to: an early `return 0`, the value that it returns with the frame
-- and the buffer that it has unmasked in place, or an access past the end of the buffer.
pub data Parsed : Type 0 where
  more : Parsed
  returned : ℕ → Frame → List ℕ → Parsed
  overrun : Parsed

-- The loop over the eight bytes of a long length, with `payload_len` as it is so far.
unfoldable pub read_length_bytes : ℕ → List ℕ → ℕ → ℕ
read_length_bytes zero bytes payload_len = payload_len
read_length_bytes (suc n) [] payload_len = payload_len
read_length_bytes (suc n) (b ∷ bytes) payload_len =
    read_length_bytes n bytes (bit_or (payload_len * 2 ^ 8 % size_mod) b)

-- `payload_len` and `offset` before the mask, where the buffer has at least two bytes.
unfoldable pub read_length : List ℕ → Option (ℕ × ℕ)
read_length bytes =
    let payload_len = bit_and (get_or bytes 1 0) 0x7f in
    if payload_len == 126
    then (if ltb (length bytes) 4
        then none
        else some (bit_or (get_or bytes 2 0 * 2 ^ 8) (get_or bytes 3 0), 4))
    else (if payload_len == 127
        then (if ltb (length bytes) 10
            then none
            else some (read_length_bytes 8 (drop 2 bytes) 0, 10))
        else some (payload_len, 2))

-- The loop that unmasks: `i` bytes are done, `n` are left, and the last list starts at the next one.
unfoldable pub unmask : List ℕ → ℕ → ℕ → List ℕ → Option (List ℕ)
unmask mask i zero bytes = some bytes
unmask mask i (suc n) [] = none
unmask mask i (suc n) (b ∷ bytes) = elim (unmask mask (suc i) n bytes) [
  | none ↦ none
  | some rest ↦ some (bit_xor b (get_or mask (i % 4) 0) ∷ rest)
]

-- From the known length on: `mask_offset` is where the mask would stand.
unfoldable pub finish_frame : List ℕ → ℕ → ℕ → Parsed
finish_frame bytes payload_len mask_offset =
    let masked = not (bit_and (get_or bytes 1 0) 0x80 == 0) in
    let offset = if masked then mask_offset + 4 else mask_offset in
    let total = add_size offset payload_len in
    let frame : Frame = record {
      fin = not (bit_and (get_or bytes 0 0) 0x80 == 0);
      opcode = bit_and (get_or bytes 0 0) 0x0f;
      payload = offset;
      len = payload_len;
    } in
    if ltb (length bytes) total
    then more
    else (if masked
        then (elim (unmask (drop mask_offset bytes) 0 payload_len (drop offset bytes)) [
          | none ↦ overrun
          | some plain ↦ returned total frame (take offset bytes ++ plain)
        ])
        else returned total frame bytes)

unfoldable pub parse_frame : List ℕ → Parsed
parse_frame bytes = if ltb (length bytes) 2 then more else (elim (read_length bytes) [
  | none ↦ more
  | some (payload_len, mask_offset) ↦ finish_frame bytes payload_len mask_offset
])

-- The loop from `i = 7` down to 0, with `i + 1` bytes to go.
unfoldable pub length_bytes : ℕ → ℕ → List ℕ
length_bytes zero len = []
length_bytes (suc i) len = bit_and (len / 2 ^ (i * 8)) 0xff ∷ length_bytes i len

unfoldable pub write_length : ℕ → List ℕ
write_length len =
    if leb len 125
    then len % 256 ∷ []
    else (if leb len 65535
        then 126 ∷ bit_and (len / 2 ^ 8) 0xff ∷ bit_and len 0xff ∷ []
        else 127 ∷ length_bytes 8 len)

-- The vector that `sendFrame` hands to `uv_write`.
unfoldable pub send_frame : ℕ → List ℕ → List ℕ
send_frame opcode payload = bit_or 0x80 opcode % 256 ∷ write_length (length payload) ++ payload

-- `strlen`: the bytes before the first zero.
unfoldable pub c_string : List ℕ → List ℕ
c_string [] = []
c_string (c ∷ cs) = let rest = c_string cs in if c == 0 then [] else c ∷ rest

-- `WebSocket::send_frame`
unfoldable pub send_text : List ℕ → List ℕ
send_text frame_payload = send_frame 1 (c_string frame_payload)
