-- ===== src/Emu/Tests.antt =====
-- A line across a small framebuffer, from outside of it, and a file of two frames.
mod Shims
mod Programs
use vekterm.Base.{
  concat, ℕ, take, drop, [], ◌∷◌, true, false, ◌≡◌, ◌<◌, refl, arith, some, length-replicate,
  All-replicate, List,
}
use vekterm.Base.Int.{pos, negsuc}
use vekterm.Protocol.Word.{pack_be}
use vekterm.Protocol.Message.{Message, header, colour, move, draw, done}
use vekterm.Frame.Picture.{blank, performs}
use vekterm.Frame.Refine.Stream.{transmit}
use vekterm.Receiver.Picture.{newest}
use vekterm.Emu.Replay.{draw_frame_file, to_draw}
use vekterm.Emu.Raster.{Screen, fb_init, draw_line}
use vekterm.Emu.Inside.{IsScreen, draw_line-IsScreen}

abbrev dark : Screen
dark = fb_init 4 3

dark-IsScreen : IsScreen 4 3 dark
unfolding fb_init
dark-IsScreen = record {
  width = refl;
  height = refl;
  room = length-replicate 12 0;
  bytes = All-replicate (λ (v : ℕ). v < 256) 12 0 (omega arith);
}

draw_line-IsScreen_example :
    (t : Screen) × (draw_line (negsuc 1) (pos 0) (pos 3) (pos 2) 90 dark ≡ some t) × IsScreen 4 3 t
draw_line-IsScreen_example =
    draw_line-IsScreen (negsuc 1) (pos 0) (pos 3) (pos 2) 90 4 3 dark
      (record { above = omega arith; below = omega arith })
      (record { above = omega arith; below = omega arith })
      (record { above = omega arith; below = omega arith })
      (record { above = omega arith; below = omega arith }) (omega arith) dark-IsScreen

abbrev film : List Message
film =
    colour 255 0 0
    ∷ draw 7 7
    ∷ done true
    ∷ header 9
    ∷ colour 8 9 10
    ∷ move 0 0
    ∷ draw 4095 5000
    ∷ done false
    ∷ []

-- The first read ends inside a word.
abbrev pieces : List (List ℕ)
pieces = take 5 (transmit film) ∷ drop 5 (transmit film) ∷ []

concat-pieces : concat pieces ≡ transmit film
unfolding transmit pack_be
concat-pieces = refl
