-- ===== src/Protocol/Encode.antt =====
-- src/protocol.c, the word encoders.
use vekterm.Base.{ℕ, Bool, if◌then◌else◌, bit_or, shl, low_bits}
use vekterm.Protocol.Word.{
  Flag, flag_value, complete, rgb, xy, quality, frame, ext, exit, flag_shift, blank_shift,
  coord_bits, monochrome_shift, ext_subtype_shift,
}

-- `(uint32_t)flag << VT_FLAG_SHIFT`
abbrev pub flag_word : Flag → ℕ
flag_word f = shl (flag_value f) flag_shift

unfoldable pub encode_rgb : ℕ → ℕ → ℕ → ℕ
encode_rgb r g b = bit_or (bit_or (bit_or (flag_word rgb) (shl r 16)) (shl g 8)) b

unfoldable pub encode_xy : ℕ → ℕ → Bool → ℕ
encode_xy x y blank =
    bit_or
      (bit_or (bit_or (flag_word xy) (shl (if blank then 1 else 0) blank_shift))
        (shl (low_bits x coord_bits) coord_bits))
      (low_bits y coord_bits)

unfoldable pub encode_frame : ℕ → ℕ
encode_frame vector_length = bit_or (flag_word frame) (low_bits vector_length flag_shift)

unfoldable pub encode_quality : ℕ → ℕ
encode_quality value = bit_or (flag_word quality) (low_bits value flag_shift)

unfoldable pub encode_complete : Bool → ℕ
encode_complete monochrome =
    bit_or (flag_word complete) (if monochrome then shl 1 monochrome_shift else 0)

unfoldable pub encode_exit : ℕ
encode_exit = flag_word exit

unfoldable pub encode_ext : ℕ → ℕ → ℕ
encode_ext subtype length =
    bit_or (bit_or (flag_word ext) (shl (low_bits subtype 5) ext_subtype_shift))
      (low_bits length 24)
