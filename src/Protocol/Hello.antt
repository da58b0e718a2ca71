-- ===== src/Protocol/Hello.antt =====
-- src/protocol.c, the device command channel: the HELLO probe, its reply and the keepalive.
use vekterm.Base.{ℕ, ◌==◌, Bool, false, ◌&&◌, List, [], ◌∷◌, bit_or, u8, shr, low_bits}
use vekterm.Protocol.Word.{Flag, cmd, word_flag}
use vekterm.Protocol.Encode.{flag_word}

abbrev pub cmd_hello : ℕ
cmd_hello = 0x56

abbrev pub cmd_keepalive : ℕ
cmd_keepalive = 0x4B

abbrev pub proto_version : ℕ
proto_version = 2

abbrev pub hello_len : ℕ
hello_len = 12

abbrev pub cap_heightfield : ℕ
cap_heightfield = 1

abbrev pub cap_polyline : ℕ
cap_polyline = 2

abbrev pub cap_intensity : ℕ
cap_intensity = 4

abbrev pub coord_bits_advertised : ℕ
coord_bits_advertised = 12

abbrev pub refresh_hz_advertised : ℕ
refresh_hz_advertised = 50

-- VT_EXT_MAX and VT_MAX_PIPELINE at their defaults.
abbrev pub ext_max : ℕ
ext_max = 8192

abbrev pub max_pipeline : ℕ
max_pipeline = 3000

abbrev pub is_cmd : Flag → Bool
is_cmd cmd = Bool.true
is_cmd _ = false

unfoldable pub is_hello : ℕ → Bool
is_hello word = is_cmd (word_flag word) && low_bits word 8 == cmd_hello

unfoldable pub encode_keepalive : ℕ
encode_keepalive = bit_or (flag_word cmd) cmd_keepalive

unfoldable pub is_keepalive : ℕ → Bool
is_keepalive word = is_cmd (word_flag word) && low_bits word 8 == cmd_keepalive

-- `vt_encode_hello_descriptor`
unfoldable pub hello_descriptor : List ℕ
hello_descriptor =
    0x56
    ∷ 0x4B
    ∷ u8 proto_version
    ∷ u8 (bit_or (bit_or cap_heightfield cap_polyline) cap_intensity)
    ∷ u8 coord_bits_advertised
    ∷ 8
    ∷ u8 (shr max_pipeline 8)
    ∷ u8 (low_bits max_pipeline 8)
    ∷ u8 (shr ext_max 8)
    ∷ u8 (low_bits ext_max 8)
    ∷ u8 refresh_hz_advertised
    ∷ 0
    ∷ []
