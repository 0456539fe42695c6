-- ===== src/Ws/Frames.antt =====
-- Whole frames: the server's own, and a client's under its mask.
use capy_js.Prelude.{Bool-cases, ℕ, ◌+◌, ◌%◌, ◌<◌, ◌≤◌, ◌≡◌, refl, arith, sym, ap, ◌∙◌, inl, inr}
use capy_js.Prelude.{bit_and, size_mod, ltb, leb, ◌==◌, not, true, false}
use capy_js.Prelude.Bits.{fin_bit}
use capy_js.Prelude.{
  some, List, [], ◌∷◌, ◌++◌, length, take, drop, get_or, append_assoc, length-append,
  drop-append_exact, take-append_exact,
}
use capy_js.Ws.{Frame, more, returned, finish_frame, read_length, parse_frame, write_length, unmask}
use capy_js.Ws.Masking.{add_mask, length-add_mask, unmask-add_mask}

-- The frame that `parseFrame` fills in for a first byte and a payload.
abbrev pub frame_at : ℕ → ℕ → ℕ → Frame
frame_at first offset len = record {
  fin = not (bit_and first 0x80 == 0);
  opcode = bit_and first 0x0f;
  payload = offset;
  len = len;
}

-- The end of `parseFrame` on its branches, for a buffer given by what the code reads of it.
module _ (bytes : List ℕ) (len offset : ℕ) where
  pub finish_short :
      bit_and (get_or bytes 1 0) 0x80 ≡ 0x80
      → offset + 4 + len < size_mod
      → length bytes < offset + 4 + len
      → finish_frame bytes len offset ≡ more
  unfolding finish_frame
  finish_short bit fits h =
      let total : (offset + 4 + len) % size_mod ≡ offset + 4 + len = omega arith in
      let lacking : ltb (length bytes) (offset + 4 + len) ≡ true = ground arith in
      rw (bit, total, lacking) refl

  pub finish_plain :
      bit_and (get_or bytes 1 0) 0x80 ≡ 0
      → offset + len < size_mod
      → offset + len ≤ length bytes
      → finish_frame bytes len offset
        ≡ returned (offset + len) (frame_at (get_or bytes 0 0) offset len) bytes
  unfolding finish_frame
  finish_plain bit fits h =
      let total : (offset + len) % size_mod ≡ offset + len = omega arith in
      let enough : ltb (length bytes) (offset + len) ≡ false = ground arith in
      rw (bit, total, enough) refl

  pub finish_masked :
      (plain : List ℕ)
      → bit_and (get_or bytes 1 0) 0x80 ≡ 0x80
      → offset + 4 + len < size_mod
      → offset + 4 + len ≤ length bytes
      → unmask (drop offset bytes) 0 len (drop (offset + 4) bytes) ≡ some plain
      → finish_frame bytes len offset
        ≡ returned
            (offset + 4 + len)
            (frame_at (get_or bytes 0 0) (offset + 4) len)
            (take (offset + 4) bytes ++ plain)
  unfolding finish_frame
  finish_masked plain bit fits h e =
      let total : (offset + 4 + len) % size_mod ≡ offset + 4 + len = omega arith in
      let enough : ltb (length bytes) (offset + 4 + len) ≡ false = ground arith in
      rw (bit, total, enough, e, bit, total) refl

pub write_length-head :
    (len : ℕ) → (b : ℕ) × (bs : List ℕ) × (write_length len ≡ b ∷ bs) × (b < 128)
unfolding write_length
write_length-head len = elim (Bool-cases (leb len 125)) [
  | inl e ↦ rw e (len % 256, [], refl, ground arith)
  | inr e ↦ elim (Bool-cases (leb len 65535)) [
    | inl e' ↦ rw (e, e') (126, _, refl, omega arith)
    | inr e' ↦ rw (e, e') (127, _, refl, omega arith)
  ]
]

abbrev pub whole : ℕ → ℕ → List ℕ → List ℕ → List ℕ
whole first second bs behind = first ∷ second ∷ bs ++ behind

-- A whole frame, by what `read_length` finds of its length.
module _ (first b : ℕ) (bs payload rest : List ℕ) (small : b < 128) where
  pub parse_plain :
      length (first ∷ b ∷ bs) + length payload < size_mod
      → read_length (whole first b bs (payload ++ rest))
        ≡ some (length payload, length (first ∷ b ∷ bs))
      → parse_frame (whole first b bs (payload ++ rest))
        ≡ returned
            (length (first ∷ b ∷ bs) + length payload)
            (frame_at first (length (first ∷ b ∷ bs)) (length payload))
            (whole first b bs (payload ++ rest))
  unfolding parse_frame
  parse_plain fits e =
      let bytes = whole first b bs (payload ++ rest) in
      let two : ltb (length bytes) 2 ≡ false = ground arith in
      let enough : length (first ∷ b ∷ bs) + length payload ≤ length bytes =
        omega (arith, length-append bs (payload ++ rest), length-append payload rest) in
      rw (two, e)
        (finish_plain bytes (length payload) (length (first ∷ b ∷ bs))
          (fin_bit b (omega arith) ∙ omega arith) fits enough)

  module _ (key : List ℕ) (four : length key ≡ 4) where
    abbrev pub sent : List ℕ
    sent = whole first (128 + b) bs (key ++ (add_mask key 0 payload ++ rest))

    at_key : drop (length (first ∷ b ∷ bs)) sent ≡ key ++ (add_mask key 0 payload ++ rest)
    at_key = drop-append_exact bs (key ++ (add_mask key 0 payload ++ rest))

    pub apart :
        (tail : List ℕ)
        → let bytes = whole first (128 + b) bs (key ++ tail) in
          (take (length (first ∷ b ∷ bs) + 4) bytes ≡ first ∷ (128 + b) ∷ bs ++ key)
          × (drop (length (first ∷ b ∷ bs) + 4) bytes ≡ tail)
    apart tail =
        let size : length (first ∷ b ∷ bs) + 4 ≡ length (first ∷ (128 + b) ∷ bs ++ key) =
          omega (arith, length-append bs key) in
        rw (size, sym (append_assoc bs key tail))
          (
            take-append_exact (first ∷ (128 + b) ∷ bs ++ key) tail,
            drop-append_exact (first ∷ (128 + b) ∷ bs ++ key) tail,
          )

    pub parse_masked :
        length (first ∷ b ∷ bs) + 4 + length payload < size_mod
        → read_length sent ≡ some (length payload, length (first ∷ b ∷ bs))
        → parse_frame sent
          ≡ returned
              (length (first ∷ b ∷ bs) + 4 + length payload)
              (frame_at first (length (first ∷ b ∷ bs) + 4) (length payload))
              (whole first (128 + b) bs (key ++ (payload ++ rest)))
    unfolding parse_frame
    parse_masked fits e =
        let tail = add_mask key 0 payload ++ rest in
        let two : ltb (length sent) 2 ≡ false = ground arith in
        let (front, behind) = apart tail in
        let plain : unmask (drop (length (first ∷ b ∷ bs)) sent) 0 (length payload)
              (drop (length (first ∷ b ∷ bs) + 4) sent)
            ≡ some (payload ++ rest) =
          rw (at_key, behind) (unmask-add_mask key tail 0 payload rest four) in
        let enough : length (first ∷ b ∷ bs) + 4 + length payload ≤ length sent = omega (
          arith,
          length-append bs (key ++ tail),
          length-append key tail,
          length-append (add_mask key 0 payload) rest,
          length-add_mask key 0 payload,
        ) in
        let same : (first ∷ (128 + b) ∷ bs ++ key) ++ (payload ++ rest)
            ≡ whole first (128 + b) bs (key ++ (payload ++ rest)) =
          ap (λ (l : List ℕ). first ∷ (128 + b) ∷ l) (append_assoc bs key (payload ++ rest)) in
        rw (two, e)
          (finish_masked sent (length payload) (length (first ∷ b ∷ bs)) (payload ++ rest)
              (fin_bit (128 + b) (omega arith) ∙ omega arith) fits enough plain
            ∙ rw front (
                ap
                  (returned (length (first ∷ b ∷ bs) + 4 + length payload)
                    (frame_at first (length (first ∷ b ∷ bs) + 4) (length payload)))
                  same))
