-- ===== src/Emu/Run.antt =====
-- The emulator's program on a frame file, from its command line on.
use Prim.Native.String.{String}
use vekterm.Base.{
  ℕ, ◌≡◌, refl, Bool, true, false, Option, some, List, [], ◌∷◌, ◌++◌, map, concat, All, ap, ◌∙◌,
  ◌>>=◌, if◌then◌else◌,
}
use vekterm.Protocol.Message.{Message}
use vekterm.Frame.Picture.{blank, performs}
use vekterm.Frame.Refine.Stream.{IsPlain, transmit}
use vekterm.Receiver.State.{DrawSeg, direct_draw}
use vekterm.Receiver.Picture.{newest}
use vekterm.Emu.Replay.{draw_frame_file, to_draw, draw_frame_file-newest}
use vekterm.Emu.Main.{
  Settings, default_settings, takes_value, classify, take_value, take_flag, parse, Act, vx_reset,
  v_init, direct_path, forget, wait_recal, vx_flush, dump_segs, vectrexinit, v_set_refresh,
  v_set_name, render_ppm, draw_splash, screen, bring_up, wind_up, Files, finish_with, draw_file,
  run, or_usage, main,
}

-- What an option sets.
pub data Setting : Type 0 where
  frame_is out_is : String → Setting
  splashes fixes dumps pipes : Setting

-- The settings after one more; a later one replaces an earlier.
unfoldable pub applied : Setting → Settings → Settings
applied (frame_is v) s = record s { framefile = some v }
applied (out_is v) s = record s { out = v }
applied splashes s = record s { mode_splash = true }
applied fixes s = record s { fixed = true }
applied dumps s = record s { dump = true }
applied pipes s = record s { pipeline = true }

unfoldable pub all_applied : List Setting → Settings → Settings
all_applied [] s = s
all_applied (x ∷ xs) s = all_applied xs (applied x s)

-- The arguments that spell a setting.
unfoldable pub spelt : Setting → List String → List String
spelt (frame_is v) more = "--frame" ∷ v ∷ more
spelt (out_is v) more = "--out" ∷ v ∷ more
spelt splashes more = "--splash" ∷ more
spelt fixes more = "--fixed" ∷ more
spelt dumps more = "--dump" ∷ more
spelt pipes more = "--pipeline" ∷ more

unfoldable pub all_spelt : List Setting → List String
all_spelt [] = []
all_spelt (x ∷ xs) = spelt x (all_spelt xs)

parse-flag :
    (a : String) (args : List String) (s s' : Settings)
    → takes_value (classify a) ≡ false
    → take_flag (classify a) s ≡ some s'
    → parse (a ∷ args) s ≡ parse args s'
unfolding parse
parse-flag a [] s s' h e = e
parse-flag a (v ∷ args) s s' h e =
    ap
      (λ b. elim b as (λ _. Option Settings) [
        | true ↦ take_value (classify a) v s >>= λ t. parse args t
        | false ↦ take_flag (classify a) s >>= λ t. parse (v ∷ args) t
      ])
      h
    ∙ ap (λ r. r >>= λ t. parse (v ∷ args) t) e

parse-spelt :
    (x : Setting) (more : List String) (s : Settings)
    → parse (spelt x more) s ≡ parse more (applied x s)
unfolding spelt applied classify take_value take_flag
parse-spelt (frame_is v) more s = unfold parse in refl
parse-spelt (out_is v) more s = unfold parse in refl
parse-spelt splashes more s = parse-flag _ more s _ refl refl
parse-spelt fixes more s = parse-flag _ more s _ refl refl
parse-spelt dumps more s = parse-flag _ more s _ refl refl
parse-spelt pipes more s = parse-flag _ more s _ refl refl

parse-all_spelt :
    (xs : List Setting) (s : Settings) → parse (all_spelt xs) s ≡ some (all_applied xs s)
unfolding all_spelt all_applied
parse-all_spelt [] s = unfold parse in refl
parse-all_spelt (x ∷ xs) s = parse-spelt x (all_spelt xs) s ∙ parse-all_spelt xs (applied x s)

bring_up-append :
    (piped : Bool) (later : List Act)
    → bring_up piped ++ later
      ≡ (vx_reset ∷ vectrexinit 1 ∷ v_set_name "vekterm" ∷ v_init ∷ [])
        ++ ((if piped then [] else direct_path ∷ []) ++ ((v_set_refresh 50 ∷ []) ++ later))
unfolding bring_up
bring_up-append true later = refl
bring_up-append false later = refl

module _ (files : Files) where
  run-frame :
      (s : Settings) (path : String) (chunks : List (List ℕ)) (drawn : List DrawSeg)
      → s.mode_splash ≡ false
      → files.fopen path ≡ some chunks
      → draw_frame_file chunks ≡ some drawn
      → run files s (some path) ≡ finish_with files s (map direct_draw drawn)
  unfolding run draw_file
  run-frame s path chunks drawn off opened read =
      ap (λ b. if b then finish_with files s draw_splash else draw_file files s (files.fopen path))
        off
      ∙ ap (draw_file files s) opened
      ∙ ap (λ o. o >>= λ ds. finish_with files s (map direct_draw ds)) read

  -- The emulator, given options in any order, the file of the last `--frame` among them and no
  -- `--splash`, when that file opens and holds messages without payloads whose fields fit their words,
  -- however it is read, makes exactly these calls: it resets the model of the hardware and brings up
  -- the device at a refresh of 50, on the direct path unless `--pipeline` is given; it draws the vectors
  -- of the last frame of the file, in order; with `--pipeline` it then sets the number of captured
  -- segments to 0 and waits for the refresh; it flushes the model, lists the segments with `--dump`,
  -- and writes the image that the options name. Its exit code says whether the image could be opened.
  pub main-frame :
      (xs : List Setting) (path : String) (ms : List Message) (chunks : List (List ℕ))
      → let s = all_applied xs default_settings in
        s.framefile ≡ some path
        → s.mode_splash ≡ false
        → files.fopen path ≡ some chunks
        → All IsPlain ms
        → concat chunks ≡ transmit ms
        → main files (all_spelt xs)
          ≡ some (
            if files.writable s.out then 0 else 1,
            (vx_reset ∷ vectrexinit 1 ∷ v_set_name "vekterm" ∷ v_init ∷ [])
                ++ ((if s.pipeline then [] else direct_path ∷ [])
                    ++ ((v_set_refresh 50 ∷ [])
                        ++ (map screen
                              (map direct_draw (to_draw (newest (performs ms (blank 0) []))))
                            ++ ((if s.pipeline then forget ∷ wait_recal ∷ [] else [])
                                ++ ((vx_flush ∷ [])
                                    ++ ((if s.dump then dump_segs ∷ [] else [])
                                        ++ (render_ppm s.out s.fixed ∷ []))))))),
          )
  unfolding main or_usage finish_with wind_up
  main-frame xs path ms chunks named off opened plain same =
      let s = all_applied xs default_settings in
      let drawn = to_draw (newest (performs ms (blank 0) [])) in
      ap (or_usage files) (parse-all_spelt xs default_settings)
      ∙ ap (run files s) named
      ∙ run-frame s path chunks drawn off opened (draw_frame_file-newest ms chunks plain same)
      ∙ ap (λ acts. some (if files.writable s.out then 0 else 1, acts))
          (bring_up-append s.pipeline (map screen (map direct_draw drawn) ++ wind_up s))
