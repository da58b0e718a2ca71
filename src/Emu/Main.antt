-- ===== src/Emu/Main.antt =====
-- tools/emu/emu_main.c: the command line, the splash and `main`. The calls of libpitrex, of the
-- font and of the model of the hardware are recorded in their order; whether a file opens, and what
-- `fread` gives of it, is an argument.
use Prim.Native.String.{String}
use text.Mathlib.Text.{◌==◌}
use vekterm.Base.{
  ℕ, Bool, true, false, Option, none, some, List, [], ◌∷◌, ◌++◌, map, if◌then◌else◌, ◌>>=◌,
}
use vekterm.Base.Int.{pos, negsuc}
use vekterm.Receiver.State.{DrawSeg, direct_draw, draw_string}
use vekterm.Receiver.State
use vekterm.Emu.Replay.{draw_frame_file}

-- The locals of `main` that the options set.
pub record Settings : Type 0 where
  pub out : String
  pub framefile : Option String
  pub mode_splash : Bool
  pub fixed : Bool
  pub dump : Bool
  pub pipeline : Bool

abbrev pub default_settings : Settings
default_settings = record {
  out = "screen.ppm";
  framefile = none;
  mode_splash = false;
  fixed = false;
  dump = false;
  pipeline = false;
}

-- The options, by their spellings.
pub data Switch : Type 0 where
  splash frame out fixed dump pipeline unknown : Switch

unfoldable pub classify : String → Switch
classify a =
    if a == "--splash"
    then splash
    else (if a == "--frame"
        then frame
        else (if a == "--out"
            then Switch.out
            else (if a == "--fixed"
                then Switch.fixed
                else (if a == "--dump"
                    then Switch.dump
                    else (if a == "--pipeline" then Switch.pipeline else unknown)))))

abbrev pub takes_value : Switch → Bool
takes_value frame = true
takes_value Switch.out = true
takes_value _ = false

-- An option that is followed by its value.
unfoldable pub take_value : Switch → String → Settings → Option Settings
take_value frame v s = some (record s { framefile = some v })
take_value Switch.out v s = some (record s { out = v })
take_value _ v s = none

-- An option without a value; one that wants a value and is the last is unknown as well.
unfoldable pub take_flag : Switch → Settings → Option Settings
take_flag splash s = some (record s { mode_splash = true })
take_flag Switch.fixed s = some (record s { fixed = true })
take_flag Switch.dump s = some (record s { dump = true })
take_flag Switch.pipeline s = some (record s { pipeline = true })
take_flag _ s = none

-- The loop over `argv`; none is the usage message.
unfoldable pub parse : List String → Settings → Option Settings
parse [] s = some s
parse (a ∷ []) s = take_flag (classify a) s
parse (a ∷ v ∷ args) s = elim (takes_value (classify a)) [
  | true ↦ take_value (classify a) v s >>= λ s'. parse args s'
  | false ↦ take_flag (classify a) s >>= λ s'. parse (v ∷ args) s'
]

-- `VT_UART_BAUD`
abbrev pub uart_baud : ℕ
uart_baud = 2000000

-- The character codes of `"dev unknown"` and of `VT_SPLASH_BAUD_LINE`.
abbrev pub build_line : List ℕ
build_line = 100 ∷ 101 ∷ 118 ∷ 32 ∷ 117 ∷ 110 ∷ 107 ∷ 110 ∷ 111 ∷ 119 ∷ 110 ∷ []

abbrev pub splash_baud_line : List ℕ
splash_baud_line =
    50 ∷ 48 ∷ 48 ∷ 48 ∷ 48 ∷ 48 ∷ 48 ∷ 32 ∷ 66 ∷ 65 ∷ 85 ∷ 68 ∷ 32 ∷ 56 ∷ 78 ∷ 49 ∷ []

unfoldable pub draw_splash : List State.Call
draw_splash =
    draw_string (negsuc 57) (pos 64) (86 ∷ 69 ∷ 75 ∷ 84 ∷ 69 ∷ 82 ∷ 77 ∷ []) 8
    ∷ draw_string (negsuc 57) (pos 28) build_line 3
    ∷ draw_string (negsuc 57) (pos 2)
        (87 ∷ 65 ∷ 73 ∷ 84 ∷ 73 ∷ 78 ∷ 71 ∷ 32 ∷ 70 ∷ 79 ∷ 82 ∷ 32 ∷ 68 ∷ 65 ∷ 84 ∷ 65 ∷ []) 4
    ∷ draw_string (negsuc 57) (negsuc 27) splash_baud_line 4
    ∷ draw_string (negsuc 57) (negsuc 57)
        (66 ∷ 84 ∷ 78 ∷ 58 ∷ 32 ∷ 67 ∷ 89 ∷ 67 ∷ 76 ∷ 69 ∷ 32 ∷ 66 ∷ 65 ∷ 85 ∷ 68 ∷ []) 3
    ∷ []

-- The calls of `main`; `forget` is `nsegs = 0` and `direct_path` is `usePipeline = 0`.
pub data Act : Type 0 where
  vx_reset v_init direct_path forget wait_recal vx_flush dump_segs : Act
  vectrexinit v_set_refresh : ℕ → Act
  v_set_name : String → Act
  screen : State.Call → Act
  render_ppm : String → Bool → Act

unfoldable pub bring_up : Bool → List Act
bring_up piped =
    vx_reset
    ∷ vectrexinit 1
    ∷ v_set_name "vekterm"
    ∷ v_init
    ∷ ((if piped then [] else direct_path ∷ []) ++ (v_set_refresh 50 ∷ []))

-- What comes after the drawing.
unfoldable pub wind_up : Settings → List Act
wind_up s =
    (if s.pipeline then forget ∷ wait_recal ∷ [] else [])
    ++ (vx_flush ∷ ((if s.dump then dump_segs ∷ [] else []) ++ (render_ppm s.out s.fixed ∷ [])))

-- `fopen` of the file to draw and the bytes of each `fread`, and whether `fopen` of the image works.
pub record Files : Type 0 where
  pub fopen : String → Option (List (List ℕ))
  pub writable : String → Bool

module _ (files : Files) where
  -- An exit code with the acts up to it; none is an access out of bounds.
  unfoldable pub finish_with : Settings → List State.Call → Option (ℕ × List Act)
  finish_with s drawn = some (
    if files.writable s.out then 0 else 1,
    bring_up s.pipeline ++ (map screen drawn ++ wind_up s),
  )

  unfoldable pub draw_file : Settings → Option (List (List ℕ)) → Option (ℕ × List Act)
  draw_file s none = some (1, bring_up s.pipeline)
  draw_file s (some chunks) = do
    drawn ← draw_frame_file chunks
    finish_with s (map direct_draw drawn)

  unfoldable pub run : Settings → Option String → Option (ℕ × List Act)
  run s none = finish_with s draw_splash
  run s (some path) =
      if s.mode_splash then finish_with s draw_splash else draw_file s (files.fopen path)

  unfoldable pub or_usage : Option Settings → Option (ℕ × List Act)
  or_usage none = some (2, [])
  or_usage (some s) = run s s.framefile

  -- `main`, of the arguments after the name of the program.
  unfoldable pub main : List String → Option (ℕ × List Act)
  main args = or_usage (parse args default_settings)
