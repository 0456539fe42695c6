-- ===== src/Util/Padding.antt =====
-- The padding of `sha1`.
use capy_js.Prelude.{
  ℕ, zero, suc, ◌+◌, ◌-◌, ◌*◌, ◌/◌, ◌%◌, ◌^◌, ◌<◌, ◌≡◌, ◌∙◌, refl, sym, ap, ap₂, subst, arith,
  bit_and, List, [], ◌∷◌, ◌++◌, length, drop, drop-append_exact, length-append, append_assoc,
}
use capy_js.Util.Sha1.{zeros, put, copy, padded_len, write_bit_len, pad}

length-zeros : (n : ℕ) → length (zeros n) ≡ n
length-zeros zero = omega arith
length-zeros (suc n) = omega (arith, length-zeros n)

zeros-append : (m n : ℕ) → zeros (m + n) ≡ zeros m ++ zeros n
zeros-append zero n = ap zeros (omega arith)
zeros-append (suc m) n =
    let shift : suc m + n ≡ suc (m + n) = omega arith in
    ap zeros shift ∙ ap (◌∷◌ 0) (zeros-append m n)

put-append :
    (xs : List ℕ) (i v : ℕ) (ys : List ℕ) → put (length xs + i) v (xs ++ ys) ≡ xs ++ put i v ys
unfolding put
put-append [] i v ys = ap (λ j. put j v ys) (omega arith)
put-append (x ∷ xs) i v ys =
    let shift : suc (length xs) + i ≡ suc (length xs + i) = omega arith in
    ap (λ j. put j v (x ∷ (xs ++ ys))) shift ∙ ap (◌∷◌ x) (put-append xs i v ys)

-- The bytes of a number from its byte `i` up, the highest first.
abbrev pub high_first : ℕ → ℕ → ℕ → List ℕ
high_first zero i x = []
high_first (suc n) i x = high_first n (suc i) x ++ bit_and (x / 2 ^ (i * 8)) 0xff ∷ []

put-zeros : (n v : ℕ) (tail : List ℕ) → put n v (0 ∷ (zeros n ++ tail)) ≡ zeros n ++ v ∷ tail
unfolding put
put-zeros zero v tail = refl
put-zeros (suc n) v tail = ap (◌∷◌ 0) (put-zeros n v tail)

write_bit_len_lem :
    (n i bit_len : ℕ) (xs tail : List ℕ)
    → write_bit_len n i (length xs + n + i) bit_len (xs ++ (zeros n ++ tail))
      ≡ xs ++ (high_first n i bit_len ++ tail)
unfolding write_bit_len
write_bit_len_lem zero i bit_len xs tail = refl
write_bit_len_lem (suc n) i bit_len xs tail =
    let v = bit_and (bit_len / 2 ^ (i * 8)) 0xff in
    let place : length xs + suc n + i - 1 - i ≡ length xs + n = omega arith in
    let width : length xs + suc n + i ≡ length xs + n + suc i = omega arith in
    rw
      (
        place,
        width,
        put-append xs n v (0 ∷ (zeros n ++ tail)),
        put-zeros n v tail,
        write_bit_len_lem n (suc i) bit_len xs (v ∷ tail),
        append_assoc,
      )
      refl

copy_lem : (input : List ℕ) (n : ℕ) → copy input (zeros (length input + n)) ≡ input ++ zeros n
unfolding copy
copy_lem input n =
    let cut : drop (length input) (zeros (length input) ++ zeros n) ≡ zeros n =
      subst (λ m. drop m (zeros (length input) ++ zeros n) ≡ zeros n) (length-zeros (length input))
        (drop-append_exact (zeros (length input)) (zeros n)) in
    ap (λ z. input ++ drop (length input) z) (zeros-append (length input) n)
    ∙ ap (λ z. input ++ z) cut

marked :
    (input : List ℕ) (n : ℕ)
    → put (length input) 0x80 (copy input (zeros (length input + suc n)))
      ≡ input ++ (0x80 ∷ zeros n)
unfolding put
marked input n =
    let start : length input ≡ length input + 0 = omega arith in
    ap (put (length input) 0x80) (copy_lem input (suc n))
    ∙ (ap (λ j. put j 0x80 (input ++ zeros (suc n))) start
        ∙ put-append input 0 0x80 (zeros (suc n)))

filled :
    (input : List ℕ) (k bit_len : ℕ)
    → write_bit_len 8 0 (length input + suc (k + 8)) bit_len (input ++ (0x80 ∷ zeros (k + 8)))
      ≡ input ++ (0x80 ∷ (zeros k ++ high_first 8 0 bit_len))
filled input k bit_len =
    let front = input ++ (0x80 ∷ zeros k) in
    let width : length input + suc (k + 8) ≡ length front + 8 + 0 =
      omega (arith, length-append input (0x80 ∷ zeros k), length-zeros k) in
    let cut : input ++ (0x80 ∷ zeros (k + 8)) ≡ front ++ (zeros 8 ++ []) =
      ap (λ z. input ++ (0x80 ∷ z)) (zeros-append k 8)
      ∙ sym (append_assoc input (0x80 ∷ zeros k) (zeros 8)) in
    ap₂ (λ m z. write_bit_len 8 0 m bit_len z) width cut
    ∙ (write_bit_len_lem 8 0 bit_len front []
        ∙ append_assoc input (0x80 ∷ zeros k) (high_first 8 0 bit_len))

pad_at :
    (input : List ℕ) (k : ℕ)
    → padded_len (length input) ≡ length input + suc (k + 8)
    → length input * 8 % 2 ^ 64 ≡ length input * 8
    → pad input ≡ input ++ (0x80 ∷ (zeros k ++ high_first 8 0 (length input * 8)))
unfolding pad
pad_at input k padded bits =
    rw (padded, bits, marked input (k + 8)) (filled input k (length input * 8))

-- The padding of FIPS 180: a message of less than 2^61 bytes is followed by the byte 0x80, the least
-- number of zeros that makes whole blocks of 64 bytes, and its length in bits as eight bytes, the
-- highest first.
pub pad_lem :
    (input : List ℕ)
    → length input < 2 ^ 61
    → (k : ℕ) × (k < 64)
      × ((length input + 1 + k + 8) % 64 ≡ 0)
      × (padded_len (length input) ≡ length input + 1 + k + 8)
      × (pad input ≡ input ++ (0x80 ∷ (zeros k ++ high_first 8 0 (length input * 8))))
unfolding padded_len
pad_lem input short =
    let len = length input in
    let k = padded_len len - len - 9 in
    let width : padded_len len ≡ len + suc (k + 8) = omega arith in
    (k, omega arith, omega arith, omega arith, pad_at input k width (omega arith))
