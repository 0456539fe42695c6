-- ===== src/Util/Base64.antt =====
-- `base64` of src/util.cc.
use capy_js.Prelude.{
  ℕ, ◌+◌, ◌-◌, ◌*◌, ◌/◌, ◌%◌, ◌^◌, ◌<◌, ◌≡◌, refl, arith, bit_and, bit_or, Option, none, some, List,
  [], ◌∷◌, ◌++◌, get_or, leb, ◌==◌, if◌then◌else◌, All, IsByte, Bool, true, false,
}
use capy_js.Prelude.Bits.{low_six, bit_or_shifted, same_to, same_to-eq}
use capy_js.Prelude.Text.{codes}

abbrev pub table : List ℕ
table = codes "ABCDEFGHIJKLMNOPQRSTUVWXYZabcdefghijklmnopqrstuvwxyz0123456789+/"

-- `t[v & 0x3F]`
unfoldable pub letter : ℕ → ℕ
letter v = get_or table (bit_and v 0x3f) 0

-- One round of the loop: the byte at `i`, and those at `i + 1` and `i + 2` where they are before the
-- end.
unfoldable pub group : ℕ → Option ℕ → Option ℕ → List ℕ
group d0 d1 d2 =
    let n =
      bit_or (bit_or (d0 * 2 ^ 16) (elim d1 [ some d ↦ d * 2 ^ 8 | none ↦ 0 ]))
        (elim d2 [ some d ↦ d | none ↦ 0 ]) in
    letter (n / 2 ^ 18)
    ∷ letter (n / 2 ^ 12)
    ∷ elim d1 [ some d ↦ letter (n / 2 ^ 6) | none ↦ 61 ]
    ∷ elim d2 [ some d ↦ letter n | none ↦ 61 ]
    ∷ []

unfoldable pub base64 : List ℕ → List ℕ
base64 [] = []
base64 (d0 ∷ []) = group d0 none none
base64 (d0 ∷ d1 ∷ []) = group d0 (some d1) none
base64 (d0 ∷ d1 ∷ d2 ∷ rest) = group d0 (some d1) (some d2) ++ base64 rest

-- A decoder of RFC 4648, written apart from the encoder: the place of a letter in the alphabet, and
-- four letters at a time.
unfoldable pub value : ℕ → ℕ
value c =
    if leb 97 c
    then c - 71
    else (if leb 65 c then c - 65 else (if leb 48 c then c + 4 else (if c == 43 then 62 else 63)))

unfoldable pub decode : List ℕ → List ℕ
decode (a ∷ b ∷ c ∷ d ∷ rest) =
    let v = value a * 2 ^ 18 + value b * 2 ^ 12 in
    let after = decode rest in
    if c == 61
    then v / 2 ^ 16 ∷ []
    else (if d == 61
        then (v + value c * 2 ^ 6) / 2 ^ 16 ∷ (v + value c * 2 ^ 6) / 2 ^ 8 % 256 ∷ []
        else let n = v + value c * 2 ^ 6 + value d in
          n / 2 ^ 16 ∷ n / 2 ^ 8 % 256 ∷ n % 256 ∷ after)
decode _ = []

zero_false : (b : Bool) → ◌≡◌ {A = ℕ} (if b then 1 else 0) 0 → b ≡ false
zero_false true h = absurd (omega arith)
zero_false false h = refl

-- A letter stands for its place, and is not the sign that fills up.
pub value-letter : (v : ℕ) → (value (letter v) ≡ v % 64) × (letter v == 61 ≡ false)
unfolding letter value same_to
value-letter v =
    let place =
      same_to-eq (λ i. value (get_or table i 0)) (λ i. i) 64 (v % 64) refl (omega arith) in
    let sign =
      same_to-eq (λ i. if get_or table i 0 == 61 then 1 else 0) (λ i. 0) 64 (v % 64) refl
        (omega arith) in
    rw (low_six v) (place, zero_false (get_or table (v % 64) 0 == 61) sign)

-- The bits of a round, as a number.
packed3 :
    (a b c : ℕ)
    → b < 256
    → c < 256
    → bit_or (bit_or (a * 2 ^ 16) (b * 2 ^ 8)) c ≡ a * 2 ^ 16 + b * 2 ^ 8 + c
packed3 a b c hb hc =
    let ab = bit_or_shifted 16 a (b * 2 ^ 8) (omega arith) in
    let abc = bit_or_shifted 8 (a * 2 ^ 8 + b) c (omega arith) in
    let same : a * 2 ^ 16 + b * 2 ^ 8 ≡ (a * 2 ^ 8 + b) * 2 ^ 8 = omega arith in
    rw (ab, same, abc) (omega arith)

-- The four letters of a number, and its three bytes.
sextets :
    (n : ℕ)
    → n < 2 ^ 24
    → n / 2 ^ 18 % 64 * 2 ^ 18 + n / 2 ^ 12 % 64 * 2 ^ 12 + n / 2 ^ 6 % 64 * 2 ^ 6 + n % 64 ≡ n
sextets n h = omega arith

bytes3 :
    (a b c : ℕ) (rest : List ℕ)
    → b < 256
    → c < 256
    → let n = a * 2 ^ 16 + b * 2 ^ 8 + c in
      n / 2 ^ 16 ∷ n / 2 ^ 8 % 256 ∷ n % 256 ∷ decode rest ≡ a ∷ b ∷ c ∷ decode rest
bytes3 a b c rest hb hc =
    let n = a * 2 ^ 16 + b * 2 ^ 8 + c in
    let top : n / 2 ^ 16 ≡ a = omega arith in
    let middle : n / 2 ^ 8 % 256 ≡ b = omega arith in
    let low : n % 256 ≡ c = omega arith in rw (top, middle, low) refl

round3 :
    (a b c : ℕ) (rest : List ℕ)
    → a < 256
    → b < 256
    → c < 256
    → decode (group a (some b) (some c) ++ rest) ≡ a ∷ b ∷ c ∷ decode rest
unfolding group decode
round3 a b c rest ha hb hc =
    let n = a * 2 ^ 16 + b * 2 ^ 8 + c in
    let v0 = value-letter (n / 2 ^ 18) in
    let v1 = value-letter (n / 2 ^ 12) in
    let v2 = value-letter (n / 2 ^ 6) in
    let v3 = value-letter n in
    rw (packed3 a b c hb hc, v2.1, v3.1, v0.0, v1.0, v2.0, v3.0, sextets n (omega arith))
      (bytes3 a b c rest hb hc)

round2 : (a b : ℕ) → a < 256 → b < 256 → decode (group a (some b) none) ≡ a ∷ b ∷ []
unfolding group decode
round2 a b ha hb =
    let n = a * 2 ^ 16 + b * 2 ^ 8 + 0 in
    let v0 = value-letter (n / 2 ^ 18) in
    let v1 = value-letter (n / 2 ^ 12) in
    let v2 = value-letter (n / 2 ^ 6) in
    let sum : n / 2 ^ 18 % 64 * 2 ^ 18 + n / 2 ^ 12 % 64 * 2 ^ 12 + n / 2 ^ 6 % 64 * 2 ^ 6 ≡ n =
      omega arith in
    let top : n / 2 ^ 16 ≡ a = omega arith in
    let middle : n / 2 ^ 8 % 256 ≡ b = omega arith in
    rw (packed3 a b 0 hb (omega arith), v2.1, v0.0, v1.0, v2.0, sum, top, middle) refl

round1 : (a : ℕ) → a < 256 → decode (group a none none) ≡ a ∷ []
unfolding group decode
round1 a ha =
    let n = a * 2 ^ 16 + 0 * 2 ^ 8 + 0 in
    let v0 = value-letter (n / 2 ^ 18) in
    let v1 = value-letter (n / 2 ^ 12) in
    let sum : n / 2 ^ 18 % 64 * 2 ^ 18 + n / 2 ^ 12 % 64 * 2 ^ 12 ≡ n = omega arith in
    let top : n / 2 ^ 16 ≡ a = omega arith in
    rw (packed3 a 0 0 (omega arith) (omega arith), v0.0, v1.0, sum, top) refl

decode-nil : decode [] ≡ []
unfolding decode
decode-nil = refl

-- Bytes that are encoded as base64 come back when they are decoded, whatever their number is modulo
-- three.
pub decode-base64 : (bytes : List ℕ) → All IsByte bytes → decode (base64 bytes) ≡ bytes
unfolding base64
decode-base64 [] h = decode-nil
decode-base64 (a ∷ []) (ha, _) = round1 a ha
decode-base64 (a ∷ b ∷ []) (ha, (hb, _)) = round2 a b ha hb
decode-base64 (a ∷ b ∷ c ∷ rest) (ha, (hb, (hc, h))) =
    rw (round3 a b c (base64 rest) ha hb hc, decode-base64 rest h) refl
