-- ===== src/Emu/Gen.antt =====
-- tools/emu/gen_frame.c, which writes the bytes of a test shape, and what the emulator draws of them.
use Prim.Native.String.{String}
use text.Mathlib.Text.{◌==◌}
use vekterm.Base.{ℕ, Bool, true, false, Option, none, some, List, [], ◌∷◌, ◌++◌}
use vekterm.Protocol.Word.{pack_be}
use vekterm.Protocol.Encode.{encode_rgb, encode_xy, encode_frame, encode_complete}
use vekterm.Protocol.Message.{Message, colour, move, draw, header, done}
use vekterm.Frame.State.{Segment}

-- The words that the shape is drawn with.
unfoldable pub shape_words : Bool → List ℕ
shape_words true =
    encode_xy 1024 1024 true
    ∷ encode_xy 3072 1024 false
    ∷ encode_xy 3072 3072 false
    ∷ encode_xy 1024 3072 false
    ∷ encode_xy 1024 1024 false
    ∷ []
shape_words false = encode_xy 2049 2050 true ∷ encode_xy 2449 2050 false ∷ []

-- `emit`, for each word
unfoldable pub emit_all : List ℕ → List ℕ
emit_all [] = []
emit_all (w ∷ words) = pack_be w ++ emit_all words

abbrev pub is_square : Option String → Bool
is_square none = true
is_square (some shape) = shape == "square"

-- What `main` writes, given its first argument, if there is one.
unfoldable pub gen_main : Option String → List ℕ
gen_main arg = emit_all (
    encode_frame 0
    ∷ encode_rgb 0xF0 0xF0 0xF0
    ∷ (shape_words (is_square arg) ++ (encode_complete false ∷ [])))

-- The points of the shape.
abbrev pub corners : Bool → List (ℕ × ℕ)
corners true = (1024, 1024) ∷ (3072, 1024) ∷ (3072, 3072) ∷ (1024, 3072) ∷ (1024, 1024) ∷ []
corners false = (2049, 2050) ∷ (2449, 2050) ∷ []

-- The vectors from each point to the next.
unfoldable pub path : ℕ → List (ℕ × ℕ) → List Segment
path z [] = []
path z (a ∷ []) = []
path z (a ∷ b ∷ points) =
    record { x0 = a.0; y0 = a.1; x1 = b.0; y1 = b.1; brightness = z } ∷ path z (b ∷ points)

abbrev messages : Bool → List Message
messages true =
    header 0
    ∷ colour 0xF0 0xF0 0xF0
    ∷ move 1024 1024
    ∷ draw 3072 1024
    ∷ draw 3072 3072
    ∷ draw 1024 3072
    ∷ draw 1024 1024
    ∷ done false
    ∷ []
messages false =
    header 0 ∷ colour 0xF0 0xF0 0xF0 ∷ move 2049 2050 ∷ draw 2449 2050 ∷ done false ∷ []
