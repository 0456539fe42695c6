-- ===== src/Ws/Overrun.antt =====
-- Where the sum of the offset and the declared length wraps: the unmasking loop of `parseFrame` leaves
-- the buffer.
use capy_js.Prelude.{ℕ, zero, suc, ◌+◌, ◌*◌, ◌%◌, ◌^◌, ◌<◌, ◌≤◌, ◌≡◌, refl, arith}
use capy_js.Prelude.{
  ◌↔◌, ◌≢◌, ◌-◌, bit_and, bit_or, size_mod, IsByte, All, get_or, length, drop, length-drop, ltb,
  true, false, none, some, List, [], ◌∷◌,
}
use capy_js.Prelude.Bits.{bit_or_shifted, low_seven}
use capy_js.Ws.{more, overrun, read_length_bytes, read_length, unmask, finish_frame, parse_frame}
use capy_js.Ws.Frames.{finish_masked, finish_short}
use capy_js.Ws.Masking.{unmask_past_end, unmask_inside}

IsByte-get_or : (bytes : List ℕ) (i : ℕ) → All IsByte bytes → get_or bytes i 0 < 256
IsByte-get_or [] i h = omega arith
IsByte-get_or (b ∷ bytes) zero (h, hs) = h
IsByte-get_or (b ∷ bytes) (suc i) (h, hs) = IsByte-get_or bytes i hs

All-drop : (n : ℕ) (bytes : List ℕ) → All IsByte bytes → All IsByte (drop n bytes)
All-drop zero bytes h = h
All-drop (suc n) [] h = h
All-drop (suc n) (b ∷ bytes) (h, hs) = All-drop n bytes hs

byte_or : (x b : ℕ) → b < 256 → bit_or (x * 2 ^ 8 % size_mod) b < size_mod
byte_or x b h =
    let cut : x * 2 ^ 8 % size_mod ≡ x % 2 ^ 56 * 2 ^ 8 = omega arith in
    rw (cut, bit_or_shifted 8 (x % 2 ^ 56) b h) (omega arith)

read_length_bytes-lt :
    (n : ℕ) (bytes : List ℕ) (x : ℕ)
    → All IsByte bytes
    → x < size_mod
    → read_length_bytes n bytes x < size_mod
unfolding read_length_bytes
read_length_bytes-lt zero bytes x h k = k
read_length_bytes-lt (suc n) [] x h k = k
read_length_bytes-lt (suc n) (b ∷ bytes) x (h, hs) k =
    read_length_bytes-lt n bytes (bit_or (x * 2 ^ 8 % size_mod) b) hs (byte_or x b h)

-- A declared length is a word, and the mask stands within the first 14 bytes.
read_length-lt :
    (bytes : List ℕ) (len offset : ℕ)
    → All IsByte bytes
    → read_length bytes ≡ some (len, offset)
    → (len < size_mod) × (offset ≤ 10)
unfolding read_length
read_length-lt bytes len offset h e = ground (
  arith,
  low_seven (get_or bytes 1 0) (IsByte-get_or bytes 1 h),
  bit_or_shifted 8 (get_or bytes 2 0) (get_or bytes 3 0),
  IsByte-get_or bytes 2 h,
  IsByte-get_or bytes 3 h,
  read_length_bytes-lt 8 (drop 2 bytes) 0 (All-drop 2 bytes h) (omega arith),
)

module _ (bytes : List ℕ) (len offset : ℕ) (short : length bytes < 2 ^ 63)
    (bounds : (len < size_mod) × (offset ≤ 10)) (bit : bit_and (get_or bytes 1 0) 0x80 ≡ 0x80) where
  inside : offset + 4 + len ≤ length bytes → finish_frame bytes len offset ≢ overrun
  unfolding finish_frame
  inside h =
      let (plain, e, _) =
        unmask_inside (drop offset bytes) 0 len (drop (offset + 4) bytes)
          (omega (arith, length-drop (offset + 4) bytes)) in
      rw (finish_masked bytes len offset plain bit (omega arith) h e) (λ q. cc)

  wrapped :
      size_mod ≤ offset + 4 + len
      → (offset + 4 + len ≤ size_mod + length bytes → finish_frame bytes len offset ≡ overrun)
        × (size_mod + length bytes < offset + 4 + len → finish_frame bytes len offset ≡ more)
  unfolding finish_frame
  wrapped h =
      let total : (offset + 4 + len) % size_mod ≡ offset + 4 + len - size_mod = omega arith in
      let past : unmask (drop offset bytes) 0 len (drop (offset + 4) bytes) ≡ none =
        unmask_past_end (drop offset bytes) 0 len (drop (offset + 4) bytes)
          (omega (arith, length-drop (offset + 4) bytes)) in
      (
        (λ k.
            let enough : ltb (length bytes) (offset + 4 + len - size_mod) ≡ false = ground arith in
            rw (bit, total, enough, past) refl),
        (λ k.
            let lacking : ltb (length bytes) (offset + 4 + len - size_mod) ≡ true = ground arith in
            rw (bit, total, lacking) refl),
      )

-- The unmasking loop of `parseFrame` leaves the buffer exactly when the sum of the payload's offset
-- and the declared length wraps around 2^64 and what is left of it is no longer than the buffer: a
-- frame with the mask bit, in a buffer of fewer than 2^63 bytes that holds the whole header.
pub overrun_iff_wraps :
    (bytes : List ℕ) (len offset : ℕ)
    → All IsByte bytes
    → length bytes < 2 ^ 63
    → 2 ≤ length bytes
    → read_length bytes ≡ some (len, offset)
    → bit_and (get_or bytes 1 0) 0x80 ≡ 0x80
    → (parse_frame bytes ≡ overrun)
      ↔ ((size_mod ≤ offset + 4 + len) × (offset + 4 + len ≤ size_mod + length bytes))
unfolding parse_frame
overrun_iff_wraps bytes len offset h short two e bit =
    let bounds = read_length-lt bytes len offset h e in
    let two' : ltb (length bytes) 2 ≡ false = ground arith in
    rw (two', e)
      (ground (
        arith,
        finish_short bytes len offset bit,
        inside bytes len offset short bounds bit,
        wrapped bytes len offset short bounds bit,
      ))
