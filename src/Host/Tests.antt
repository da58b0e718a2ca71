-- ===== src/Host/Tests.antt =====
-- Concrete runs of the host tool.
mod Programs
use Prim.Native.String.{String}
use text.Mathlib.Text.{◌==◌}
use vekterm.Base.{
  concat, ℕ, ◌≡◌, refl, arith, true, false, if◌then◌else◌, some, List, [], ◌∷◌, ◌++◌, length, All,
  u64,
}
use vekterm.Base.Int.{pos, negsuc}
use vekterm.Protocol.Word.{pack_be}
use vekterm.Protocol.Message.{Message, header, colour, move, draw, done, ping}
use vekterm.Frame.State.{Parser}
use vekterm.Frame.Beam.{zero_frame}
use vekterm.Frame.Picture.{blank, performs}
use vekterm.Frame.Refine.Stream.{transmit}
use vekterm.Host.Stub.{Stub, Options, selftest_line, stub_init}
use vekterm.Host.App.{App, run_selftest}
use vekterm.Host.Cli.{Number, Settings, Try, default_settings, parse}
use vekterm.Host.Cli.Reads.{
  talks, min_is, shows_once, input_is, all_spelt, all_applied, parse-all_spelt,
}
use vekterm.Host.Loop.{end_of_file, read_loop}
use vekterm.Host.Chunks.{turns}
use vekterm.Host.Seen.{report, without_pings}
use vekterm.Host.Replay.{fresh_parser, read_loop-report}
use vekterm.Host.Selftest.{selftest_shown, run_selftest-passes}

abbrev reads_one : String → Number
reads_one text =
    if text == "-300"
    then record { value = negsuc 299; errno = false; nothing_read = false; at_end = true }
    else record { value = pos 0; errno = false; nothing_read = true; at_end = false }

abbrev settings : List vekterm.Host.Cli.Reads.Setting
settings = talks true ∷ min_is "-300" (negsuc 299) ∷ input_is false "out.bin" ∷ []

parse-all_spelt_example :
    parse reads_one (all_spelt settings ("--once" ∷ [])) default_settings
    ≡ parse reads_one ("--once" ∷ []) (all_applied settings default_settings)
parse-all_spelt_example =
    parse-all_spelt reads_one settings ("--once" ∷ []) default_settings
      (tt, (record { below = omega arith; above = omega arith; read = refl }, (tt, tt)))

abbrev loud : Options
loud = record default_settings.opt { verbose = true }

run_selftest-passes_example :
    (lines : List vekterm.Host.Stub.Line) × (run_selftest true loud
      ≡ some (0, lines ++ (selftest_line true 1 ∷ [])))
    × (without_pings lines ≡ report true 0 selftest_shown)
run_selftest-passes_example = run_selftest-passes loud
