-- ===== src/Util/AcceptKey.antt =====
-- `compute_ws_accept_key` of src/util.cc.
use capy_js.Prelude.{
  ℕ, ◌/◌, ◌^◌, ◌<◌, ◌≡◌, refl, arith, bit_and, List, ◌++◌, All, All-append, IsByte,
}
use capy_js.Prelude.Bits.{low_byte}
use capy_js.Prelude.Text.{codes}
use capy_js.Util.Base64.{base64, group, letter, decode, decode-base64}
use capy_js.Util.Sha1.{
  sha1, State, digest_of, word_bytes, process_blocks, process_block, rounds, extend_words,
  read_words, round, rotate, f_of, k_of, word_at, copy, padded_len, write_bit_len, put, pad,
}

abbrev pub magic : List ℕ
magic = codes "258EAFA5-E914-47DA-95CA-C5AB0DC85B11"

unfoldable pub compute_ws_accept_key : List ℕ → List ℕ
compute_ws_accept_key incoming_sec_key = base64 (sha1 (incoming_sec_key ++ magic))

byte : (x : ℕ) → bit_and x 0xff < 256
byte x = omega (arith, low_byte x)

word_bytes-IsByte : (h : ℕ) → All IsByte (word_bytes h)
unfolding word_bytes
word_bytes-IsByte h = (byte (h / 2 ^ 24), (byte (h / 2 ^ 16), (byte (h / 2 ^ 8), (byte h, tt))))

digest-IsByte : (h : State) → All IsByte (digest_of h)
unfolding digest_of
digest-IsByte h =
    let join = All-append IsByte in
    All-append IsByte _ _ (word_bytes-IsByte h.a) (
      All-append IsByte _ _ (word_bytes-IsByte h.b) (
        All-append IsByte _ _ (word_bytes-IsByte h.c)
          (All-append IsByte _ _ (word_bytes-IsByte h.d) (word_bytes-IsByte h.e))))

-- The key and the accept key of the example in section 1.3 of RFC 6455.
abbrev pub sample_key : List ℕ
sample_key = codes "dGhlIHNhbXBsZSBub25jZQ=="

abbrev pub sample_accept : List ℕ
sample_accept = codes "s3pPLMBiTxaQ9kYGzzhZRbK+xOo="

sample : compute_ws_accept_key sample_key ≡ sample_accept
unfolding compute_ws_accept_key base64 sha1 digest_of word_bytes process_blocks padded_len
    process_block rounds extend_words read_words round rotate f_of k_of word_at pad write_bit_len
    put copy group letter
sample = refl

-- The accept key of any client's key decodes, as base64, to the digest that the code's SHA-1 makes of
-- the key with the fixed text behind it; and for the key of the example in RFC 6455, which takes all the
-- rounds of two blocks, it is the accept key that the document gives.
pub accept_key_decodes :
    (incoming_sec_key : List ℕ)
    → (decode (compute_ws_accept_key incoming_sec_key) ≡ sha1 (incoming_sec_key ++ magic))
      × (compute_ws_accept_key sample_key ≡ sample_accept)
unfolding compute_ws_accept_key sha1
accept_key_decodes incoming_sec_key = (decode-base64 _ (digest-IsByte _), sample)
