-- ===== src/Protocol/Word.antt =====
-- src/protocol.c, decoding: a 32-bit word into a flag and its fields, and words from bytes.
use vekterm.Base.{
  ℕ, ◌==◌, Bool, false, Option, none, some, List, [], ◌∷◌, if◌then◌else◌, bit_or, u8, u16, shl, shr,
  low_bits, bit_set,
}

-- `vt_flag`, in the order of its values 0x0 .. 0x7.
pub data Flag : Type 0 where
  complete rgb xy quality frame cmd ext exit : Flag

-- The cast of a three-bit number to `vt_flag`.
unfoldable pub flag_of : ℕ → Flag
flag_of n =
    if n == 0
    then complete
    else (if n == 1
        then rgb
        else (if n == 2
            then xy
            else (if n == 3
                then quality
                else (if n == 4
                    then frame
                    else (if n == 5 then cmd else (if n == 6 then ext else exit))))))

-- The value of a flag in the enumeration.
abbrev pub flag_value : Flag → ℕ
flag_value complete = 0
flag_value rgb = 1
flag_value xy = 2
flag_value quality = 3
flag_value frame = 4
flag_value cmd = 5
flag_value ext = 6
flag_value exit = 7

abbrev pub word_bytes : ℕ
word_bytes = 4

abbrev pub flag_shift : ℕ
flag_shift = 29

abbrev pub blank_shift : ℕ
blank_shift = 28

abbrev pub coord_bits : ℕ
coord_bits = 14

-- VT_COMPLETE_MONOCHROME is the bit of this number.
abbrev pub monochrome_shift : ℕ
monochrome_shift = 28

abbrev pub ext_subtype_shift : ℕ
ext_subtype_shift = 24

-- `vt_command`.
pub record Command : Type 0 where
  pub flag : Flag
  pub blank : Bool
  pub x : ℕ
  pub y : ℕ
  pub r : ℕ
  pub g : ℕ
  pub b : ℕ
  pub value : ℕ
  pub monochrome : Bool

-- What `memset` and the store of the flag leave.
abbrev pub blank_command : Flag → Command
blank_command f = record {
  flag = f;
  blank = false;
  x = 0;
  y = 0;
  r = 0;
  g = 0;
  b = 0;
  value = 0;
  monochrome = false;
}

unfoldable pub word_flag : ℕ → Flag
unfolding flag_of
word_flag word = flag_of (low_bits (shr word flag_shift) 3)

-- The `switch` of `vt_decode_word`. VT_PAYLOAD_MASK is 29 ones.
unfoldable pub decode_fields : Flag → ℕ → Command
decode_fields rgb word = record (blank_command rgb) {
  r = u8 (low_bits (shr word 16) 8);
  g = u8 (low_bits (shr word 8) 8);
  b = u8 (low_bits word 8);
}
decode_fields xy word = record (blank_command xy) {
  blank = bit_set word blank_shift;
  x = u16 (low_bits (shr word coord_bits) coord_bits);
  y = u16 (low_bits word coord_bits);
}
decode_fields frame word = record (blank_command frame) { value = low_bits word flag_shift }
decode_fields quality word = record (blank_command quality) { value = low_bits word flag_shift }
decode_fields complete word = record (blank_command complete) {
  monochrome = bit_set word monochrome_shift;
}
decode_fields cmd word = blank_command cmd
decode_fields ext word = blank_command ext
decode_fields exit word = blank_command exit

unfoldable pub decode_word : ℕ → Command
unfolding word_flag decode_fields
decode_word word = decode_fields (word_flag word) word

unfoldable pub ext_subtype : ℕ → ℕ
ext_subtype word = u8 (low_bits (shr word ext_subtype_shift) 5)

unfoldable pub ext_length : ℕ → ℕ
ext_length word = low_bits word 24

-- `vt_pack_be`: the four bytes, most significant first.
unfoldable pub pack_be : ℕ → List ℕ
pack_be word = u8 (shr word 24) ∷ u8 (shr word 16) ∷ u8 (shr word 8) ∷ u8 (shr word 0) ∷ []

-- The word of four bytes, by the shifts and `|` of `vt_unpack_be`.
unfoldable pub word_of_bytes : ℕ → ℕ → ℕ → ℕ → ℕ
word_of_bytes b0 b1 b2 b3 = bit_or (bit_or (bit_or (shl b0 24) (shl b1 16)) (shl b2 8)) b3

-- `vt_unpack_be`; `none` for an array of fewer than four bytes.
unfoldable pub unpack_be : List ℕ → Option ℕ
unfolding word_of_bytes
unpack_be (b0 ∷ b1 ∷ b2 ∷ b3 ∷ _) = some (word_of_bytes b0 b1 b2 b3)
unpack_be _ = none
