-- ===== src/Ws/Pieces.antt =====
-- A frame that arrives in pieces: `parseFrame` asks for more until it is whole.
use capy_js.Prelude.{ℕ, zero, suc, ◌+◌, ◌-◌, ◌^◌, ◌<◌, ◌≤◌, ◌≡◌, refl, arith, ap, ◌∙◌}
use capy_js.Prelude.{Bool-cases, inl, inr, ltb, none, some, List, [], ◌∷◌, ◌++◌}
use capy_js.Prelude.{bit_and, false, length, take, length-take, length-append}
use capy_js.Prelude.Bits.{fin_bit}
use capy_js.Ws.{more, parse_frame, read_length, write_length}
use capy_js.Ws.Length.{write_length-forms, length-write_length, marked}
use capy_js.Ws.Masking.{add_mask, length-add_mask}
use capy_js.Ws.Frames.{write_length-head, finish_short}
use capy_js.Ws.RoundTrip.{read_length_of, client_frame}

-- With less than the header there, the length is not known: the second byte says how long it is.
cut_header :
    (first len b : ℕ) (bs tail : List ℕ)
    → write_length len ≡ b ∷ bs
    → length tail < length bs
    → read_length (first ∷ (128 + b) ∷ tail) ≡ none
unfolding read_length
cut_header first len b bs tail e h =
    ground (arith, write_length-forms len b bs e, marked first 128 (inr refl) b)

take-whole :
    (n : ℕ) (xs ys : List ℕ) → length xs ≤ n → take n (xs ++ ys) ≡ xs ++ take (n - length xs) ys
take-whole n [] ys h = ap (λ (k : ℕ). take k ys) (omega arith)
take-whole zero (x ∷ xs) ys h = absurd (omega arith)
take-whole (suc n) (x ∷ xs) ys h =
    ap (◌∷◌ x) (take-whole n xs ys (omega arith) ∙ ap (λ (k : ℕ). xs ++ take k ys) (omega arith))

take-part : (n : ℕ) (xs ys : List ℕ) → n < length xs → length (take n (xs ++ ys)) ≡ n
take-part n xs ys h = omega (arith, length-take n (xs ++ ys), length-append xs ys)

few : (bytes : List ℕ) → length bytes < 2 → parse_frame bytes ≡ more
unfolding parse_frame
few bytes h = ground arith

-- The part, from its second byte on.
part :
    (first b n : ℕ) (bs key payload : List ℕ)
    → b < 128
    → write_length (length payload) ≡ b ∷ bs
    → length key ≡ 4
    → length payload < 2 ^ 63
    → n < length bs + 4 + length payload
    → parse_frame (first ∷ (128 + b) ∷ take n (bs ++ (key ++ add_mask key 0 payload))) ≡ more
unfolding parse_frame
part first b n bs key payload small e four fits h =
    let tail = key ++ add_mask key 0 payload in
    let bytes = first ∷ (128 + b) ∷ take n (bs ++ tail) in
    let len = length payload in
    let two : ltb (length bytes) 2 ≡ false = ground arith in
    let bit : bit_and (128 + b) 0x80 ≡ 0x80 = fin_bit (128 + b) (omega arith) ∙ omega arith in
    let size : length bytes ≡ suc (suc n) = omega (
      arith,
      length-take n (bs ++ tail),
      length-append bs tail,
      length-append key (add_mask key 0 payload),
      length-add_mask key 0 payload,
    ) in
    elim (Bool-cases (ltb n (length bs))) [
      | inl inside ↦
          rw (two, cut_header first len b bs (take n (bs ++ tail)) e (ground (arith, size))) refl
      | inr beyond ↦
          let known : read_length bytes ≡ some (len, length (first ∷ b ∷ bs)) =
            rw (take-whole n bs tail (ground arith)) (
              read_length_of first 128 len b bs (take (n - length bs) tail) (inr refl) (omega arith)
                e) in
          let near : length bs < 9 = omega (arith, length-write_length len, ap length e) in
          rw (two, known)
            (finish_short bytes len (length (first ∷ b ∷ bs)) bit (omega arith) (omega arith))
    ]

-- Of a client's frame that has arrived in part only, however little or much of it, `parseFrame` takes
-- nothing: it returns 0 and leaves the buffer as it is.
pub part_of_frame_waits :
    (opcode : ℕ) (key payload : List ℕ) (n : ℕ)
    → length key ≡ 4
    → length payload < 2 ^ 63
    → n < length (client_frame opcode key payload)
    → parse_frame (take n (client_frame opcode key payload)) ≡ more
unfolding client_frame
part_of_frame_waits opcode key payload zero four fits h = few [] (omega arith)
part_of_frame_waits opcode key payload (suc zero) four fits h =
    few ((128 + opcode) ∷ []) (omega arith)
part_of_frame_waits opcode key payload (suc (suc n)) four fits h =
    let (b, bs, e, small) = write_length-head (length payload) in
    let size : length (client_frame opcode key payload) ≡ length bs + 4 + length payload + 2 =
      rw (client_frame, e)
        (omega (
          arith,
          length-append bs (key ++ add_mask key 0 payload),
          length-append key (add_mask key 0 payload),
          length-add_mask key 0 payload,
        )) in
    rw e (part (128 + opcode) b n bs key payload small e four fits (omega arith))
