-- ===== src/Ws/Tests.antt =====
-- Frames of "Hi", and a header that declares a length of 2^64 - 1.
use capy_js.Prelude.{
  ℕ, suc, ◌+◌, ◌≤◌, ◌≡◌, ◌↔◌, refl, arith, List, [], ◌∷◌, ◌++◌, length, take, drop, size_mod,
}
use capy_js.Ws.{
  parse_frame, more, overrun, send_frame, send_text, c_string, read_length, read_length_bytes,
  write_length,
}
use capy_js.Ws.RoundTrip.{client_frame, sent_frame_parses, client_frame_parses}
use capy_js.Ws.Pieces.{part_of_frame_waits}
use capy_js.Ws.Overrun.{overrun_iff_wraps}

abbrev key : List ℕ
key = 1 ∷ 2 ∷ 3 ∷ 4 ∷ []

abbrev hi : List ℕ
hi = 72 ∷ 105 ∷ []

send_text_bytes : send_text (72 ∷ 105 ∷ 0 ∷ 33 ∷ []) ≡ 129 ∷ 2 ∷ 72 ∷ 105 ∷ []
unfolding send_text send_frame write_length c_string
send_text_bytes = refl

sent_frame_parses_example :
    take 2 (drop (suc (length (write_length 2))) (send_frame 1 hi ++ 9 ∷ [])) ≡ hi
sent_frame_parses_example = (sent_frame_parses 1 hi (9 ∷ []) (omega arith) (omega arith)).1

client_frame_parses_example :
    length ((client_frame_parses 1 key hi (9 ∷ []) (omega arith) refl (omega arith)).0)
    ≡ length (client_frame 1 key hi ++ 9 ∷ [])
client_frame_parses_example =
    (client_frame_parses 1 key hi (9 ∷ []) (omega arith) refl (omega arith)).3

part_of_frame_waits_example : parse_frame (take 7 (client_frame 1 key hi)) ≡ more
unfolding client_frame write_length
part_of_frame_waits_example = part_of_frame_waits 1 key hi 7 refl (omega arith) (omega arith)

-- Offset 14 and length 2^64 - 1 sum to 13, which is less than what has arrived.
abbrev hostile : List ℕ
hostile = 129 ∷ 255 ∷ 255 ∷ 255 ∷ 255 ∷ 255 ∷ 255 ∷ 255 ∷ 255 ∷ 255 ∷ 1 ∷ 2 ∷ 3 ∷ 4 ∷ []

overrun_iff_wraps_example : (parse_frame hostile ≡ overrun) ↔ (
    (size_mod ≤ 10 + 4 + 0xffff_ffff_ffff_ffff)
    × (10 + 4 + 0xffff_ffff_ffff_ffff ≤ size_mod + length hostile))
unfolding read_length read_length_bytes
overrun_iff_wraps_example =
    overrun_iff_wraps hostile 0xffff_ffff_ffff_ffff 10 (ground arith) (omega arith) (omega arith)
      refl refl

hostile_overruns : parse_frame hostile ≡ overrun
unfolding read_length read_length_bytes
hostile_overruns = overrun_iff_wraps_example.1 (omega arith, omega arith)
