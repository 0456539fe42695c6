-- ===== src/Util/Tests.antt =====
-- The utilities at fixed inputs, and the theorems applied to them.
use capy_js.Prelude.{ℕ, ◌+◌, ◌%◌, ◌<◌, ◌++◌, some, none, ◌≡◌, refl, arith, List, [], ◌∷◌}
use capy_js.Prelude.Text.{codes, same_text}
use capy_js.Util.Base64.{base64, decode, decode-base64}
use capy_js.Util.AcceptKey.{compute_ws_accept_key, sample_key, accept_key_decodes}
use capy_js.Util.Padding.{high_first, pad_lem}
use capy_js.Util.Rounds.{majority, f_of_lem}
use capy_js.Util.Files.{get_file_extension, get_content_type, starts_with, strrchr, later_of}
use capy_js.Util.Sha1.{
  sha1, zeros, digest_of, word_bytes, process_blocks, process_block, rounds, extend_words,
  read_words, round, rotate, f_of, k_of, word_at, copy, padded_len, write_bit_len, put, pad,
}

decode-base64_example : decode (base64 (77 ∷ 97 ∷ 255 ∷ 110 ∷ [])) ≡ 77 ∷ 97 ∷ 255 ∷ 110 ∷ []
decode-base64_example =
    decode-base64 (77 ∷ 97 ∷ 255 ∷ 110 ∷ [])
      (omega arith, (omega arith, (omega arith, (omega arith, tt))))

accept_key_decodes_example :
    (decode (compute_ws_accept_key sample_key)
      ≡ sha1 (codes "dGhlIHNhbXBsZSBub25jZQ==258EAFA5-E914-47DA-95CA-C5AB0DC85B11"))
    × (compute_ws_accept_key sample_key ≡ codes "s3pPLMBiTxaQ9kYGzzhZRbK+xOo=")
accept_key_decodes_example = accept_key_decodes sample_key

pad_lem_example :
    (k : ℕ) × (k < 64)
    × ((3 + 1 + k + 8) % 64 ≡ 0)
    × (padded_len 3 ≡ 3 + 1 + k + 8)
    × (pad (codes "abc") ≡ codes "abc" ++ (0x80 ∷ (zeros k ++ high_first 8 0 24)))
pad_lem_example = pad_lem (codes "abc") (omega arith)

f_of_lem_example : f_of 45 12 10 9 ≡ majority 12 10 9
f_of_lem_example = f_of_lem 45 12 10 9 (omega arith)

names : get_file_extension (codes "www/app.min.js") ≡ some (codes "js")
unfolding get_file_extension strrchr later_of
names = refl

hidden_file : get_file_extension (codes ".bashrc") ≡ none
unfolding get_file_extension strrchr later_of
hidden_file = refl

-- An extension that only starts like a known one gets its type.
json_is_script : get_content_type (codes "json") ≡ codes "text/javascript"
unfolding get_content_type starts_with same_text
json_is_script = refl

-- The digest of "abc" in FIPS 180.
abbrev abc_digest : List ℕ
abc_digest =
    0xa9 ∷ 0x99 ∷ 0x3e ∷ 0x36 ∷ 0x47 ∷ 0x06 ∷ 0x81 ∷ 0x6a ∷ 0xba ∷ 0x3e ∷ 0x25 ∷ 0x71 ∷ 0x78 ∷ 0x50
    ∷ 0xc2 ∷ 0x6c ∷ 0x9c ∷ 0xd0 ∷ 0xd8 ∷ 0x9d ∷ []

sha1-abc : sha1 (codes "abc") ≡ abc_digest
unfolding sha1 digest_of word_bytes process_blocks padded_len process_block rounds extend_words
    read_words round rotate f_of k_of word_at pad write_bit_len put copy
sha1-abc = refl
