-- ===== src/Emu/Tests/Programs.antt =====
-- The emulator on the file of the generated square, which is read in two pieces.
use mathlib.Core.List.{append-nil}
use vekterm.Base.{◌≡◌, refl, arith, true, false, some, List, [], ◌∷◌, ◌++◌, map}
use vekterm.Protocol.Message.{Message, colour, draw, done}
use vekterm.Frame.Picture.{blank, performs}
use vekterm.Frame.Refine.Stream.{transmit}
use vekterm.Receiver.State.{direct_draw}
use vekterm.Receiver.Picture.{newest}
use vekterm.Emu.Replay.{to_draw}
use vekterm.Emu.Main.{
  default_settings, screen, vx_reset, v_init, forget, wait_recal, vx_flush, dump_segs, vectrexinit,
  v_set_refresh, v_set_name, render_ppm, Files, main,
}
use vekterm.Emu.Run.{
  Setting, frame_is, out_is, dumps, pipes, applied, all_applied, all_spelt, main-frame,
}

abbrev film : List Message
film = colour 9 9 9 ∷ draw 7 7 ∷ done false ∷ draw 0 0 ∷ draw 8 9 ∷ done true ∷ []

abbrev disk : Files
disk = record { fopen = λ name. some (transmit film ∷ []); writable = λ name. true }

abbrev given : List Setting
given = dumps ∷ frame_is "a.bin" ∷ pipes ∷ out_is "b.ppm" ∷ []

given-frame : (all_applied given default_settings).framefile ≡ some "a.bin"
unfolding all_applied applied
given-frame = refl

given-no_splash : (all_applied given default_settings).mode_splash ≡ false
unfolding all_applied applied
given-no_splash = refl

main-frame_example :
    main disk (all_spelt given)
    ≡ some (
      0,
      (vx_reset ∷ vectrexinit 1 ∷ v_set_name "vekterm" ∷ v_init ∷ v_set_refresh 50 ∷ [])
          ++ (map screen (map direct_draw (to_draw (newest (performs film (blank 0) []))))
              ++ (forget ∷ wait_recal ∷ vx_flush ∷ dump_segs ∷ render_ppm "b.ppm" false ∷ [])),
    )
unfolding all_applied applied
main-frame_example =
    main-frame disk given "a.bin" film (transmit film ∷ []) given-frame given-no_splash refl
      (ground arith) (append-nil (transmit film))
