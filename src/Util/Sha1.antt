-- ===== src/Util/Sha1.antt =====
-- `sha1` of src/util.cc. A `uint32_t` is a number below 2^32, with the wrap-around written out.
use capy_js.Prelude.{
  ℕ, zero, suc, ◌+◌, ◌-◌, ◌*◌, ◌/◌, ◌%◌, ◌^◌, bit_and, bit_or, bit_xor, List, [], ◌∷◌, ◌++◌, length,
  get_or, drop, ltb, if◌then◌else◌, size_mod, add_size,
}

abbrev pub zeros : ℕ → List ℕ
zeros zero = []
zeros (suc n) = 0 ∷ zeros n

-- `msg[i] = v`
unfoldable pub put : ℕ → ℕ → List ℕ → List ℕ
put i v [] = []
put zero v (x ∷ xs) = v ∷ xs
put (suc i) v (x ∷ xs) = x ∷ put i v xs

-- `memcpy(msg, data, len)`
unfoldable pub copy : List ℕ → List ℕ → List ℕ
copy input msg = input ++ drop (length input) msg

unfoldable pub padded_len : ℕ → ℕ
padded_len len = (add_size len 8 / 64 + 1) * 64 % size_mod

-- The loop that writes the length, `n` rounds from `i` on.
unfoldable pub write_bit_len : ℕ → ℕ → ℕ → ℕ → List ℕ → List ℕ
write_bit_len zero i padded bit_len msg = msg
write_bit_len (suc n) i padded bit_len msg =
    write_bit_len n (suc i) padded bit_len
      (put (padded - 1 - i) (bit_and (bit_len / 2 ^ (i * 8)) 0xff) msg)

unfoldable pub pad : List ℕ → List ℕ
pad input =
    let padded = padded_len (length input) in
    let bit_len = length input * 8 % 2 ^ 64 in
    write_bit_len 8 0 padded bit_len (put (length input) 0x80 (copy input (zeros padded)))

abbrev add32 : ℕ → ℕ → ℕ
add32 a b = (a + b) % 2 ^ 32

-- `(x << k) | (x >> (32 - k))`
unfoldable pub rotate : ℕ → ℕ → ℕ
rotate k x = bit_or (x * 2 ^ k % 2 ^ 32) (x / 2 ^ (32 - k))

-- The word at `i` of a block.
unfoldable pub word_at : List ℕ → ℕ → ℕ
word_at msg i =
    bit_or
      (bit_or (bit_or (get_or msg (i * 4) 0 * 2 ^ 24) (get_or msg (i * 4 + 1) 0 * 2 ^ 16))
        (get_or msg (i * 4 + 2) 0 * 2 ^ 8))
      (get_or msg (i * 4 + 3) 0)

-- The two loops that fill `w`: `n` rounds from `i` on, with the words so far.
unfoldable pub read_words : ℕ → ℕ → List ℕ → List ℕ → List ℕ
read_words zero i msg w = w
read_words (suc n) i msg w = read_words n (suc i) msg (w ++ word_at msg i ∷ [])

unfoldable pub extend_words : ℕ → ℕ → List ℕ → List ℕ
extend_words zero i w = w
extend_words (suc n) i w =
    let x =
      bit_xor (bit_xor (bit_xor (get_or w (i - 3) 0) (get_or w (i - 8) 0)) (get_or w (i - 14) 0))
        (get_or w (i - 16) 0) in
    extend_words n (suc i) (w ++ rotate 1 x ∷ [])

-- `h`, and the variables of the rounds.
pub record State : Type 0 where
  pub a : ℕ
  pub b : ℕ
  pub c : ℕ
  pub d : ℕ
  pub e : ℕ

unfoldable pub f_of : ℕ → ℕ → ℕ → ℕ → ℕ
f_of i b c d =
    if ltb i 20
    then bit_or (bit_and b c) (bit_and (2 ^ 32 - 1 - b) d)
    else (if ltb i 40
        then bit_xor (bit_xor b c) d
        else (if ltb i 60
            then bit_or (bit_or (bit_and b c) (bit_and b d)) (bit_and c d)
            else bit_xor (bit_xor b c) d))

unfoldable pub k_of : ℕ → ℕ
k_of i =
    if ltb i 20
    then 0x5A827999
    else (if ltb i 40 then 0x6ED9EBA1 else (if ltb i 60 then 0x8F1BBCDC else 0xCA62C1D6))

unfoldable pub round : ℕ → ℕ → State → State
round i w s = record {
  a = add32 (add32 (add32 (add32 (rotate 5 s.a) (f_of i s.b s.c s.d)) s.e) (k_of i)) w;
  b = s.a;
  c = rotate 30 s.b;
  d = s.c;
  e = s.d;
}

unfoldable pub rounds : ℕ → List ℕ → State → State
rounds i [] s = s
rounds i (w ∷ ws) s = rounds (suc i) ws (round i w s)

-- One block of 64 bytes.
unfoldable pub process_block : List ℕ → State → State
process_block msg h =
    let w = extend_words 64 16 (read_words 16 0 msg []) in
    let s = rounds 0 w h in
    record {
      a = add32 h.a s.a;
      b = add32 h.b s.b;
      c = add32 h.c s.c;
      d = add32 h.d s.d;
      e = add32 h.e s.e;
    }

-- `n` blocks.
unfoldable pub process_blocks : ℕ → List ℕ → State → State
process_blocks zero msg h = h
process_blocks (suc n) msg h = process_blocks n (drop 64 msg) (process_block msg h)

unfoldable pub word_bytes : ℕ → List ℕ
word_bytes h =
    bit_and (h / 2 ^ 24) 0xff
    ∷ bit_and (h / 2 ^ 16) 0xff
    ∷ bit_and (h / 2 ^ 8) 0xff
    ∷ bit_and h 0xff
    ∷ []

abbrev initial : State
initial = record { a = 0x67452301; b = 0xEFCDAB89; c = 0x98BADCFE; d = 0x10325476; e = 0xC3D2E1F0 }

unfoldable pub digest_of : State → List ℕ
digest_of h =
    word_bytes h.a ++ (word_bytes h.b ++ (word_bytes h.c ++ (word_bytes h.d ++ word_bytes h.e)))

unfoldable pub sha1 : List ℕ → List ℕ
sha1 input =
    let msg = pad input in digest_of (process_blocks (padded_len (length input) / 64) msg initial)
