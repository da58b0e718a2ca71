-- ===== src/Protocol/RoundTrip.antt =====
-- src/protocol.c: decoding a word gives back what it was built from, and the other way round.
use vekterm.Base.{ℕ, ◌+◌, ◌*◌, ◌/◌, ◌%◌, ◌^◌, ◌<◌, ◌≡◌, refl, arith, true, false, some, [], ◌∷◌}
use vekterm.Protocol.Word.{
  complete, rgb, xy, quality, frame, ext, word_flag, decode_word, ext_subtype, ext_length, pack_be,
  unpack_be, word_of_bytes,
}
use vekterm.Protocol.Encode.{encode_xy, encode_complete, encode_exit, encode_ext}
use vekterm.Protocol.Hello.{encode_keepalive, is_hello, is_keepalive}
use vekterm.Protocol.Message.{
  Message, colour, move, draw, header, hint, done, leave, ping, container, encode, Fits, meaning,
  is_ping,
}
use vekterm.Protocol.Sums.{
  bit, encode_rgb_sum, encode_xy_sum, encode_frame_sum, encode_quality_sum, encode_complete_sum,
  encode_ext_sum, flag_of_sum, word_of_bytes_sum,
}

-- Every message whose fields fit decodes to the command that it means.
pub decode_word-encode : (m : Message) → Fits m → decode_word (encode m) ≡ meaning m
unfolding decode_word encode meaning
decode_word-encode (colour r g b) h =
    ground (arith, encode_rgb_sum r g b, flag_of_sum rgb (r * 2 ^ 16 + g * 2 ^ 8 + b))
decode_word-encode (move x y) h =
    ground (arith, encode_xy_sum x y true, flag_of_sum xy (2 ^ 28 + x * 2 ^ 14 + y))
decode_word-encode (draw x y) h =
    ground (arith, encode_xy_sum x y false, flag_of_sum xy (x * 2 ^ 14 + y))
decode_word-encode (header n) h = ground (arith, encode_frame_sum n, flag_of_sum frame n)
decode_word-encode (hint n) h = ground (arith, encode_quality_sum n, flag_of_sum quality n)
decode_word-encode (done true) h = unfold encode_complete in refl
decode_word-encode (done false) h = unfold encode_complete in refl
decode_word-encode leave h = unfold encode_exit in refl
decode_word-encode ping h = unfold encode_keepalive in refl
decode_word-encode (container s n) h =
    ground (arith, encode_ext_sum s n, flag_of_sum ext (s * 2 ^ 24 + n))

-- An XY word holds nothing but its three fields: encoding what it decodes to gives it back.
pub encode_xy-decode_word :
    (w : ℕ) → w < 2 ^ 32 → word_flag w ≡ xy → let c = decode_word w in encode_xy c.x c.y c.blank ≡ w
unfolding decode_word
encode_xy-decode_word w h e =
    ground (arith, encode_xy_sum (decode_word w).x (decode_word w).y (decode_word w).blank)

-- The subtype and the payload length can be read back from the header of a container.
pub ext_fields-encode_ext :
    (s n : ℕ)
    → s < 32
    → n < 2 ^ 24
    → (ext_subtype (encode_ext s n) ≡ s) × (ext_length (encode_ext s n) ≡ n)
unfolding ext_subtype ext_length
ext_fields-encode_ext s n hs hn = ground (arith, encode_ext_sum s n)

-- A word written as four bytes, most significant first, is read back.
pub unpack_be-pack_be : (w : ℕ) → w < 2 ^ 32 → unpack_be (pack_be w) ≡ some w
unfolding unpack_be pack_be
unpack_be-pack_be w h =
    ground
      (arith, word_of_bytes_sum (w / 2 ^ 24 % 256) (w / 2 ^ 16 % 256) (w / 2 ^ 8 % 256) (w % 256))

-- Four bytes read as a word are the four bytes that the word is written as.
pub pack_be-word_of_bytes :
    (b0 b1 b2 b3 : ℕ)
    → b0 < 256
    → b1 < 256
    → b2 < 256
    → b3 < 256
    → pack_be (word_of_bytes b0 b1 b2 b3) ≡ b0 ∷ b1 ∷ b2 ∷ b3 ∷ []
unfolding pack_be
pack_be-word_of_bytes b0 b1 b2 b3 h0 h1 h2 h3 =
    ground (arith, word_of_bytes_sum b0 b1 b2 b3 h0 h1 h2 h3)

-- Of all that a sender can say, the keepalive alone is taken for a keepalive, and nothing is
-- taken for the HELLO probe.
pub is_keepalive-encode :
    (m : Message) → Fits m → (is_keepalive (encode m) ≡ is_ping m) × (is_hello (encode m) ≡ false)
unfolding is_keepalive is_hello encode
is_keepalive-encode (colour r g b) h =
    ground (arith, encode_rgb_sum r g b, flag_of_sum rgb (r * 2 ^ 16 + g * 2 ^ 8 + b))
is_keepalive-encode (move x y) h =
    ground (arith, encode_xy_sum x y true, flag_of_sum xy (2 ^ 28 + x * 2 ^ 14 + y))
is_keepalive-encode (draw x y) h =
    ground (arith, encode_xy_sum x y false, flag_of_sum xy (x * 2 ^ 14 + y))
is_keepalive-encode (header n) h = ground (arith, encode_frame_sum n, flag_of_sum frame n)
is_keepalive-encode (hint n) h = ground (arith, encode_quality_sum n, flag_of_sum quality n)
is_keepalive-encode (done m) h =
    ground (arith, encode_complete_sum m, flag_of_sum complete (bit m * 2 ^ 28))
is_keepalive-encode leave h = unfold encode_exit word_flag in (refl, refl)
is_keepalive-encode ping h = unfold encode_keepalive word_flag in (refl, refl)
is_keepalive-encode (container s n) h =
    ground (arith, encode_ext_sum s n, flag_of_sum ext (s * 2 ^ 24 + n))

-- Every message whose fields fit is a 32-bit word.
pub encode-lt : (m : Message) → Fits m → encode m < 2 ^ 32
unfolding encode
encode-lt (colour r g b) h = ground (arith, encode_rgb_sum r g b)
encode-lt (move x y) h = ground (arith, encode_xy_sum x y true)
encode-lt (draw x y) h = ground (arith, encode_xy_sum x y false)
encode-lt (header n) h = ground (arith, encode_frame_sum n)
encode-lt (hint n) h = ground (arith, encode_quality_sum n)
encode-lt (done m) h = ground (arith, encode_complete_sum m)
encode-lt leave h = unfold encode_exit in omega arith
encode-lt ping h = unfold encode_keepalive in omega arith
encode-lt (container s n) h = ground (arith, encode_ext_sum s n)
