-- ===== src/Protocol/Tests.antt =====
-- The worked words of docs/PROTOCOL.md and tests/test_protocol.c, and each theorem at one input.
use vekterm.Base.{ℕ, ◌+◌, ◌≤◌, ◌*◌, ◌≡◌, refl, arith, true, false, [], ◌∷◌}
use vekterm.Base.Int.{ℤ, pos, negsuc, ◌+ℤ◌, ◌-ℤ◌, ◌*ℤ◌, ◌≤ℤ◌, quot_ℤ, to_int32}
use vekterm.Protocol.Word.{xy, decode_word, word_flag}
use vekterm.Protocol.Encode.{encode_rgb, encode_xy, encode_frame}
use vekterm.Protocol.Hello.{hello_descriptor, is_hello, is_keepalive}
use vekterm.Protocol.Coord.{map_coord, clamp_res, round_quot, scale_color}
use vekterm.Protocol.Message.{colour, encode, meaning}
use vekterm.Protocol.RoundTrip.{decode_word-encode, encode_xy-decode_word}
use vekterm.Protocol.Coord.Nearest.{map_coord_nearest, map_coord_bounds}

-- The words of the worked example.
example_words :
    (encode_frame 400 ≡ 0x80000190)
    × (encode_rgb 0xF0 0xF0 0xF0 ≡ 0x20F0F0F0)
    × (encode_xy 2049 2050 true ≡ 0x52004802)
    × (encode_xy 2449 2050 false ≡ 0x42644802)
unfolding encode_frame encode_rgb encode_xy
example_words = (refl, refl, refl, refl)

example_descriptor :
    hello_descriptor ≡ 0x56 ∷ 0x4B ∷ 2 ∷ 7 ∷ 12 ∷ 8 ∷ 11 ∷ 184 ∷ 32 ∷ 0 ∷ 50 ∷ 0 ∷ []
unfolding hello_descriptor
example_descriptor = refl

hello_probe : (is_hello 0xA0000056 ≡ true) × (is_keepalive 0xA000004B ≡ true)
unfolding is_hello is_keepalive word_flag
hello_probe = (refl, refl)

colours : (scale_color (pos 15) ≡ 240) × (scale_color (pos 16) ≡ 255) × (scale_color (negsuc 4) ≡ 0)
unfolding scale_color
colours = (refl, refl, refl)

mapped : map_coord (pos 2048) (negsuc 2047) (pos 2047) ≡ pos 0
unfolding map_coord clamp_res round_quot quot_ℤ to_int32 ◌+ℤ◌ ◌-ℤ◌ ◌*ℤ◌
mapped = refl

decode_word-encode_example : decode_word (encode (colour 240 16 255)) ≡ meaning (colour 240 16 255)
decode_word-encode_example = decode_word-encode (colour 240 16 255) (omega arith)

word_flag-example : word_flag 0x42644802 ≡ xy
unfolding word_flag
word_flag-example = refl

encode_xy-decode_word_example :
    let c = decode_word 0x42644802 in encode_xy c.x c.y c.blank ≡ 0x42644802
encode_xy-decode_word_example = encode_xy-decode_word 0x42644802 (omega arith) word_flag-example

abbrev lowest : ℤ
lowest = negsuc 9999

map_coord_nearest_example :
    (m : ℕ) × (map_coord (pos 100) lowest (lowest +ℤ pos 20000) ≡ lowest +ℤ pos m)
    × (map_coord (pos 100) lowest (lowest -ℤ pos 20000) ≡ lowest -ℤ pos m)
    × (4095 * m ≤ 20000 * 100 + 2047)
    × (20000 * 100 ≤ 4095 * m + 2047)
map_coord_nearest_example = map_coord_nearest lowest 20000 100 (omega arith) (omega arith)

map_coord_bounds_example :
    (lowest ≤ℤ map_coord (pos 77) lowest (lowest +ℤ pos 20000))
    × (map_coord (pos 77) lowest (lowest +ℤ pos 20000) ≤ℤ lowest +ℤ pos 20000)
    × (lowest -ℤ pos 20000 ≤ℤ map_coord (pos 77) lowest (lowest -ℤ pos 20000))
    × (map_coord (pos 77) lowest (lowest -ℤ pos 20000) ≤ℤ lowest)
map_coord_bounds_example = map_coord_bounds (pos 77) lowest 20000 (omega arith)
