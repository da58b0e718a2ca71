-- ===== src/Host/Main.antt =====
-- src/vekterm.c, `main` as a whole: the source that it opens, its ends and their exit codes.
pub mod Closed
pub mod Report
use Prim.Native.String.{String}
use text.Mathlib.Text.{◌==◌}
use vekterm.Base.{
  ℕ, Bool, true, false, Option, none, some, List, [], ◌∷◌, ◌++◌, if◌then◌else◌, ◌>>=◌,
}
use vekterm.Base.Int.{ℤ, pos, negsuc, ltb_ℤ}
use vekterm.Frame.State.{Parser}
use vekterm.Frame.Beam.{init}
use vekterm.Host.Stub.{Line, stub_init}
use vekterm.Host.App.{App, app_sink, first_app, is_negative, run_selftest}
use vekterm.Host.Cli.{Number, Settings, Notice, Try, ok, stop, read_args}
use vekterm.Host.Serial.{Headers, Port, PortCall, closes, vt_serial_open}
use vekterm.Host.Loop.{Read, Ended, is_running, read_loop}

-- What `S_ISREG` and `S_ISFIFO` tell apart.
pub data FileKind : Type 0 where
  regular_file fifo other : FileKind

-- `source_is_eofable`, by what `fstat` gives.
unfoldable pub source_is_eofable : Option FileKind → Bool
source_is_eofable none = false
source_is_eofable (some regular_file) = true
source_is_eofable (some fifo) = true
source_is_eofable (some other) = false

-- What is outside of the program: `strtol`, the headers, what `open` returns for a file and what the
-- system calls do for a port, what `fstat` tells of a descriptor if it succeeds, whether there is memory, and
-- the turns of the loop.
pub record System : Type 0 where
  pub strtol : String → Number
  pub headers : Headers
  pub open_file : String → ℤ
  pub open_port : String → Port
  pub fstat : ℤ → Option FileKind
  pub memory : Bool
  pub turns : List (Bool × Read)

-- How `main` ends: at the command line, with the self test, without a source, without memory, or
-- after the loop; with the calls on descriptors. If the turns run out in the loop it is still running,
-- and nothing is closed yet.
pub data Outcome : Type 0 where
  stops : ℕ → Notice → Outcome
  tests : ℕ → List Line → Outcome
  no_source : List PortCall → Outcome
  no_memory : List PortCall → Outcome
  serves : Ended → Parser App → List PortCall → Outcome

abbrev pub exit_code : Outcome → ℕ
exit_code (stops code n) = code
exit_code (tests code ls) = code
exit_code (no_source cs) = 1
exit_code (no_memory cs) = 1
exit_code (serves e p cs) = 0

-- The opening of the source: its descriptor, and the calls.
unfoldable pub open_source : System → Settings → ℤ × List PortCall
open_source sys s = elim s.input [
  | none ↦ vt_serial_open sys.headers (sys.open_port s.port) s.baud
  | some input ↦ if input == "-" then (pos 0, []) else (sys.open_file input, [])
]

-- `if (fd > STDERR_FILENO) close(fd)`
abbrev pub close_source : ℤ → List PortCall
close_source fd = if ltb_ℤ (pos 2) fd then closes fd ∷ [] else []

-- `app.out_fd`
abbrev pub reply_fd : Settings → ℤ → ℤ
reply_fd s fd = elim s.input [ none ↦ fd | some input ↦ negsuc 0 ]

-- From the opened source to the end.
unfoldable pub serve_source : System → Settings → ℤ → List PortCall → Option Outcome
serve_source sys s fd calls = elim (stub_init sys.memory s.opt) [
  | none ↦ some (no_memory (calls ++ close_source fd))
  | some stub ↦
      read_loop s.once (source_is_eofable (sys.fstat fd)) sys.turns
        (init (app_sink (first_app stub (reply_fd s fd))))
      >>= λ a. some (serves a.0 a.1 (if is_running a.0 then calls else calls ++ close_source fd))
]

-- `main` after the command line.
unfoldable pub run_settings : System → Settings → Option Outcome
run_settings sys s =
    let (fd, calls) = open_source sys s in
    elim s.selftest [
      | true ↦ run_selftest sys.memory s.opt >>= λ r. some (tests r.0 r.1)
      | false ↦ if is_negative fd then some (no_source calls) else serve_source sys s fd calls
    ]

unfoldable pub main : System → List String → Option Outcome
main sys args = elim (read_args sys.strtol args) [
  | stop code n ↦ some (stops code n)
  | ok s ↦ run_settings sys s
]
