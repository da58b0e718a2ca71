-- ===== src/Protocol/Message.antt =====
-- What a sender can say, apart from how it is spelled on the wire: the specification that the
-- encoders and decoders of src/protocol.c meet.
use vekterm.Base.{ℕ, ◌^◌, ◌<◌, Bool, true, false}
use vekterm.Protocol.Word.{
  Command, blank_command, complete, rgb, xy, quality, frame, cmd, ext, exit,
}
use vekterm.Protocol.Encode.{
  encode_rgb, encode_xy, encode_frame, encode_quality, encode_complete, encode_exit, encode_ext,
}
use vekterm.Protocol.Hello.{encode_keepalive}

-- One constructor for each encoder.
pub data Message : Type 0 where
  colour : ℕ → ℕ → ℕ → Message
  move draw : ℕ → ℕ → Message
  header hint : ℕ → Message
  done : Bool → Message
  leave ping : Message
  container : ℕ → ℕ → Message

unfoldable pub encode : Message → ℕ
encode (colour r g b) = encode_rgb r g b
encode (move x y) = encode_xy x y true
encode (draw x y) = encode_xy x y false
encode (header n) = encode_frame n
encode (hint n) = encode_quality n
encode (done m) = encode_complete m
encode leave = encode_exit
encode ping = encode_keepalive
encode (container s n) = encode_ext s n

-- The fields of a message fit their places in the word.
abbrev pub Fits : Message → Type 0
Fits (colour r g b) = (r < 256) × (g < 256) × (b < 256)
Fits (move x y) = (x < 2 ^ 14) × (y < 2 ^ 14)
Fits (draw x y) = (x < 2 ^ 14) × (y < 2 ^ 14)
Fits (header n) = n < 2 ^ 29
Fits (hint n) = n < 2 ^ 29
Fits (done m) = Unit
Fits leave = Unit
Fits ping = Unit
Fits (container s n) = (s < 32) × (n < 2 ^ 24)

-- The command that a message means.
unfoldable pub meaning : Message → Command
meaning (colour r g b) = record (blank_command rgb) { r = r; g = g; b = b }
meaning (move x y) = record (blank_command xy) { blank = true; x = x; y = y }
meaning (draw x y) = record (blank_command xy) { x = x; y = y }
meaning (header n) = record (blank_command frame) { value = n }
meaning (hint n) = record (blank_command quality) { value = n }
meaning (done m) = record (blank_command complete) { monochrome = m }
meaning leave = blank_command exit
meaning ping = blank_command cmd
meaning (container s n) = blank_command ext

abbrev pub is_ping : Message → Bool
is_ping ping = true
is_ping _ = false

abbrev pub is_leave : Message → Bool
is_leave leave = true
is_leave _ = false
