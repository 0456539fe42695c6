-- ===== src/Ws/RoundTrip.antt =====
-- A frame that one side has sent whole is read back whole.
use capy_js.Prelude.{
  subst, ◌⊎◌, suc, ℕ, ◌+◌, ◌*◌, ◌/◌, ◌^◌, ◌%◌, ◌<◌, ◌≡◌, refl, arith, ap, ◌∙◌, inl, inr,
}
use capy_js.Prelude.{bit_or, some, true, length, take, drop, size_mod, List, ◌∷◌, ◌++◌}
use capy_js.Prelude.{append_assoc, take-append_exact, drop-append_exact, length-append}
use capy_js.Prelude.Bits.{fin_bit, low_nibble, with_top_bit}
use capy_js.Ws.{returned, parse_frame, read_length, write_length, send_frame}
use capy_js.Ws.Length.{add_mark, length-write_length, read_length-write_length}
use capy_js.Ws.Masking.{add_mask, length-add_mask}
use capy_js.Ws.Frames.{frame_at, whole, sent, apart, write_length-head, parse_plain, parse_masked}

-- The first byte of an unfragmented frame.
first_byte :
    (opcode offset len : ℕ)
    → opcode < 16
    → frame_at (128 + opcode) offset len
      ≡ record { fin = true; opcode = opcode; payload = offset; len = len }
first_byte opcode offset len h =
    rw
      (
        fin_bit (128 + opcode) (omega arith),
        low_nibble (128 + opcode) (omega arith),
        whole_bit,
        low,
      )
      refl
  where
    whole_bit : (128 + opcode) / 128 * 128 ≡ 128
    whole_bit = omega arith

    low : (128 + opcode) % 16 ≡ opcode
    low = omega arith

opening : (opcode : ℕ) → opcode < 16 → bit_or 0x80 opcode % 256 ≡ 128 + opcode
opening opcode h = rw (with_top_bit opcode (omega arith)) (omega arith)

-- A client's frame (RFC 6455, section 5.2): `FIN`, the mask bit with the length, the key, and the
-- payload under the key.
unfoldable pub client_frame : ℕ → List ℕ → List ℕ → List ℕ
client_frame opcode key payload =
    (128 + opcode) ∷ add_mark 128 (write_length (length payload)) ++ (key ++ add_mask key 0 payload)

-- The length of a frame, where the first byte of what `write_length` gives is known.
pub read_length_of :
    (first mark len b : ℕ) (bs behind : List ℕ)
    → (mark ≡ 0) ⊎ (mark ≡ 128)
    → len < size_mod
    → write_length len ≡ b ∷ bs
    → read_length (whole first (mark + b) bs behind) ≡ some (len, length (first ∷ b ∷ bs))
read_length_of first mark len b bs behind m h e =
    subst (λ w. read_length (first ∷ add_mark mark w ++ behind) ≡ some (len, suc (length w))) e
      (read_length-write_length first mark m len behind h)

-- What `sendFrame` writes, `parseFrame` reads: with any bytes behind it, it consumes the frame and no
-- more, with the opcode, and a payload that is the one sent, of any length below 2^63.
pub sent_frame_parses :
    (opcode : ℕ) (payload rest : List ℕ)
    → opcode < 16
    → length payload < 2 ^ 63
    → let bytes = send_frame opcode payload in
      let offset = suc (length (write_length (length payload))) in
      (parse_frame (bytes ++ rest)
        ≡ returned
            (length bytes)
            (record { fin = true; opcode = opcode; payload = offset; len = length payload })
            (bytes ++ rest))
      × (take (length payload) (drop offset (bytes ++ rest)) ≡ payload)
unfolding send_frame
sent_frame_parses opcode payload rest op short =
    let (b, bs, e, small) = write_length-head (length payload) in
    let first = 128 + opcode in
    let head = length (first ∷ b ∷ bs) in
    let same : 0 + b ≡ b = omega arith in
    let read : read_length (whole first b bs (payload ++ rest)) ≡ some (length payload, head) =
      subst (λ x. read_length (whole first x bs (payload ++ rest)) ≡ some (length payload, head))
        same
        (read_length_of first 0 (length payload) b bs (payload ++ rest) (inl refl) (omega arith)
          e) in
    let size : length (first ∷ b ∷ bs ++ payload) ≡ head + length payload =
      omega (arith, length-append bs payload) in
    let fits : head + length payload < size_mod =
      omega (arith, length-write_length (length payload), ap length e) in
    rw
      (
        e,
        opening opcode op,
        append_assoc bs payload rest,
        size,
        ← first_byte opcode head (length payload) op,
      )
      (
        parse_plain first b bs payload rest small fits read,
        rw (drop-append_exact bs (payload ++ rest)) (take-append_exact payload rest),
      )

pub length-client_frame :
    (opcode : ℕ) (key payload : List ℕ)
    → length key ≡ 4
    → length (client_frame opcode key payload)
      ≡ suc (length (write_length (length payload))) + 4 + length payload
unfolding client_frame
length-client_frame opcode key payload four =
    let (b, bs, e, small) = write_length-head (length payload) in
    rw e (
      omega (
        arith,
        length-append bs (key ++ add_mask key 0 payload),
        length-append key (add_mask key 0 payload),
        length-add_mask key 0 payload,
      ))

-- A client's frame under its mask is consumed whole too, with its opcode, and the buffer is left with
-- the payload that the client meant in the frame's place, and the bytes behind it as they were.
pub client_frame_parses :
    (opcode : ℕ) (key payload rest : List ℕ)
    → opcode < 16
    → length key ≡ 4
    → length payload < 2 ^ 63
    → let bytes = client_frame opcode key payload in
      let offset = suc (length (write_length (length payload))) + 4 in
      (buffer : List ℕ) × (parse_frame (bytes ++ rest)
        ≡ returned
            (length bytes)
            (record { fin = true; opcode = opcode; payload = offset; len = length payload })
            buffer)
      × (drop offset buffer ≡ payload ++ rest)
      × (length buffer ≡ length (bytes ++ rest))
unfolding client_frame
client_frame_parses opcode key payload rest op four short =
    let (b, bs, e, small) = write_length-head (length payload) in
    let first = 128 + opcode in
    let head = length (first ∷ b ∷ bs) in
    let tail = key ++ (add_mask key 0 payload ++ rest) in
    let read : read_length (sent first b bs payload rest small key four)
        ≡ some (length payload, head) =
      read_length_of first 128 (length payload) b bs tail (inr refl) (omega arith) e in
    let fits : head + 4 + length payload < size_mod =
      omega (arith, length-write_length (length payload), ap length e) in
    let size : length (first ∷ (128 + b) ∷ bs ++ (key ++ add_mask key 0 payload))
        ≡ head + 4 + length payload =
      omega (
        arith,
        length-append bs (key ++ add_mask key 0 payload),
        length-append key (add_mask key 0 payload),
        length-add_mask key 0 payload,
      ) in
    let joined : (bs ++ (key ++ add_mask key 0 payload)) ++ rest ≡ bs ++ tail =
      append_assoc bs (key ++ add_mask key 0 payload) rest
      ∙ ap (λ (l : List ℕ). bs ++ l) (append_assoc key (add_mask key 0 payload) rest) in
    let same_size : length (whole first (128 + b) bs (key ++ (payload ++ rest)))
        ≡ length (first ∷ (128 + b) ∷ bs ++ tail) =
      omega (
        arith,
        length-append bs (key ++ (payload ++ rest)),
        length-append bs tail,
        length-append key (payload ++ rest),
        length-append key (add_mask key 0 payload ++ rest),
        length-append payload rest,
        length-append (add_mask key 0 payload) rest,
        length-add_mask key 0 payload,
      ) in
    rw (e, joined, size, ← first_byte opcode (head + 4) (length payload) op)
      (
        _,
        parse_masked first b bs payload rest small key four fits read,
        (apart first b bs payload rest small key four (payload ++ rest)).1,
        same_size,
      )
