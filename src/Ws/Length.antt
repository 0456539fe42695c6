-- ===== src/Ws/Length.antt =====
-- The length of a frame: what `sendFrame` writes, `parseFrame` reads.
use capy_js.Prelude.{
  inl, inr, ◌⊎◌, ℕ, zero, suc, ◌+◌, ◌*◌, ◌/◌, ◌%◌, ◌^◌, ◌<◌, ◌≤◌, ◌≡◌, refl, arith, ap, ◌∙◌, sym,
}
use capy_js.Prelude.{bit_and, bit_or, size_mod}
use capy_js.Prelude.Bits.{low_byte, low_seven, bit_or_shifted}
use capy_js.Prelude.{some, List, [], ◌∷◌, ◌++◌, length, length-append}
use capy_js.Ws.{read_length_bytes, read_length, length_bytes, write_length}
use native.Mathlib.Nat.{div-div-eq-div-mul, pow-suc}

-- One round of either loop on one byte.
byte_step : (q : ℕ) → q < size_mod → bit_or (q / 256 * 2 ^ 8 % size_mod) (bit_and q 0xff) ≡ q
byte_step q h =
    ap (λ (x : ℕ). bit_or x (bit_and q 0xff)) fits
    ∙ ap (bit_or (q / 256 * 2 ^ 8)) (low_byte q)
    ∙ bit_or_shifted 8 (q / 256) (q % 256) (omega arith)
    ∙ omega arith
  where
    fits : q / 256 * 2 ^ 8 % size_mod ≡ q / 256 * 2 ^ 8
    fits = omega arith

power : (k : ℕ) → 2 ^ (suc (suc (suc (suc (suc (suc (suc (suc k)))))))) ≡ 2 ^ k * 256
power k = omega (
  arith,
  pow-suc 2 k,
  pow-suc 2 (suc k),
  pow-suc 2 (suc (suc k)),
  pow-suc 2 (suc (suc (suc k))),
  pow-suc 2 (suc (suc (suc (suc k)))),
  pow-suc 2 (suc (suc (suc (suc (suc k))))),
  pow-suc 2 (suc (suc (suc (suc (suc (suc k)))))),
  pow-suc 2 (suc (suc (suc (suc (suc (suc (suc k))))))),
)

quotient : (n len : ℕ) → len / 2 ^ (suc n * 8) ≡ len / 2 ^ (n * 8) / 256
quotient n len =
    ap (λ (x : ℕ). len / x) (ap (λ (k : ℕ). 2 ^ k) eight ∙ power (n * 8))
    ∙ sym (div-div-eq-div-mul len (2 ^ (n * 8)) 256)
  where
    eight : suc n * 8 ≡ suc (suc (suc (suc (suc (suc (suc (suc (n * 8))))))))
    eight = omega arith

-- The two loops, over the same bytes.
read-length_bytes :
    (n len : ℕ) (rest : List ℕ)
    → len < size_mod
    → read_length_bytes n (length_bytes n len ++ rest) (len / 2 ^ (n * 8)) ≡ len
unfolding read_length_bytes length_bytes
read-length_bytes zero len rest h = omega arith
read-length_bytes (suc n) len rest h =
    ap (read_length_bytes n (length_bytes n len ++ rest))
      (rw (quotient n len) (byte_step (len / 2 ^ (n * 8)) (omega arith)))
    ∙ read-length_bytes n len rest h

length-length_bytes : (n len : ℕ) → length (length_bytes n len) ≡ n
unfolding length_bytes
length-length_bytes zero len = refl
length-length_bytes (suc n) len = ap suc (length-length_bytes n len)

pub length-write_length : (len : ℕ) → length (write_length len) < 10
unfolding write_length
length-write_length len = ground (arith, length-length_bytes 8 len)

-- The three forms, by the first byte and how many follow.
pub write_length-forms :
    (len b : ℕ) (bs : List ℕ)
    → write_length len ≡ b ∷ bs
    → ((b < 126) × (length bs ≡ 0)) ⊎ ((b ≡ 126) × (length bs ≡ 2)) ⊎ ((b ≡ 127) × (length bs ≡ 8))
unfolding write_length
write_length-forms len b bs e =
    let sizes : length (write_length len) ≡ suc (length bs) = ap length e in
    ground (arith, length-length_bytes 8 len)

-- The second byte of a frame has the mask bit, `mark`, over what `write_length` puts first.
abbrev pub add_mark : ℕ → List ℕ → List ℕ
add_mark mark [] = []
add_mark mark (b ∷ bs) = (mark + b) ∷ bs

module _ (first mark : ℕ) (m : (mark ≡ 0) ⊎ (mark ≡ 128)) where
  pub marked : (b : ℕ) → b < 128 → bit_and (mark + b) 0x7f ≡ b
  marked b h = elim m [
    | inl e ↦ low_seven (mark + b) (omega arith) ∙ omega arith
    | inr e ↦ low_seven (mark + b) (omega arith) ∙ omega arith
  ]

  short :
      (len : ℕ) (rest : List ℕ)
      → len ≤ 125
      → read_length (first ∷ (mark + len % 256) ∷ rest) ≡ some (len, 2)
  unfolding read_length
  short len rest h = ground (arith, marked (len % 256))

  medium :
      (len : ℕ) (rest : List ℕ)
      → len ≤ 65535
      → read_length (first ∷ (mark + 126) ∷ bit_and (len / 2 ^ 8) 0xff ∷ bit_and len 0xff ∷ rest)
        ≡ some (len, 4)
  unfolding read_length
  medium len rest h =
      rw (marked 126 (omega arith), low_byte (len / 2 ^ 8), low_byte len)
        (ground (arith, bit_or_shifted 8 (len / 2 ^ 8 % 256) (len % 256)))

  long :
      (len : ℕ) (rest : List ℕ)
      → len < size_mod
      → read_length (first ∷ (mark + 127) ∷ length_bytes 8 len ++ rest) ≡ some (len, 10)
  unfolding read_length
  long len rest h =
      rw (marked 127 (omega arith))
        (ground (arith, read, length-append (length_bytes 8 len) rest, length-length_bytes 8 len))
    where
      read : read_length_bytes 8 (length_bytes 8 len ++ rest) 0 ≡ len
      read =
          ap (read_length_bytes 8 (length_bytes 8 len ++ rest)) (omega arith)
          ∙ read-length_bytes 8 len rest h

  -- `parseFrame` reads the length that `sendFrame` writes, in each of the three forms, and finds the
  -- end of it.
  pub read_length-write_length :
      (len : ℕ) (rest : List ℕ)
      → len < size_mod
      → read_length (first ∷ add_mark mark (write_length len) ++ rest)
        ≡ some (len, suc (length (write_length len)))
  unfolding write_length
  read_length-write_length len rest h =
      ground (arith, short len rest, medium len rest, long len rest h, length-length_bytes 8 len)
