-- ===== src/Host/Loop.antt =====
-- src/vekterm.c, the main loop. What the system does is an argument: for each turn, whether a signal
-- has set `g_stop` and what the read returns. `stub_refresh` does nothing, and the sleep neither.
use vekterm.Base.{
  ℕ, Bool, true, false, ◌&&◌, ◌||◌, Option, some, List, [], ◌∷◌, ltb, if◌then◌else◌, ◌>>=◌,
}
use vekterm.Frame.State.{Parser}
use vekterm.Frame.Parser.{feed}
use vekterm.Host.App.{App}

-- What `read` returns: bytes, no byte, an error that means to try again (EAGAIN, EWOULDBLOCK or
-- EINTR), or another.
pub data Read : Type 0 where
  got : List ℕ → Read
  empty again failed : Read

-- How the loop stands after the turns that were given.
pub data Ended : Type 0 where
  running stopped end_of_file read_error first_frame : Ended

-- What the loop does with what was read: the parser after it, or that it is left.
unfoldable pub take_read : Bool → Read → Parser App → Option (Ended × Parser App)
take_read eofable (got bytes) p = feed p bytes >>= λ q. some (running, q)
take_read true empty p = some (end_of_file, p)
take_read false empty p = some (running, p)
take_read eofable again p = some (running, p)
take_read eofable failed p = some (read_error, p)

abbrev pub is_running : Ended → Bool
is_running running = true
is_running _ = false

-- The end of the body: the test of `--once`.
unfoldable pub check_once : Bool → Ended × Parser App → Ended × Parser App
check_once once (e, p) =
    if is_running e && (once && ltb 0 p.sink.ctx.frames) then (first_frame, p) else (e, p)

-- The body of the loop.
unfoldable pub body : Bool → Bool → Read → Parser App → Option (Ended × Parser App)
body once eofable r p = take_read eofable r p >>= λ a. some (check_once once a)

-- The loop, for the turns that are given.
unfoldable pub read_loop :
    Bool → Bool → List (Bool × Read) → Parser App → Option (Ended × Parser App)
read_loop once eofable [] p = some (running, p)
read_loop once eofable ((stop, r) ∷ turns) p = elim (stop || p.sink.ctx.exit_seen) [
  | true ↦ some (stopped, p)
  | false ↦ body once eofable r p >>= λ a. elim (is_running a.0) [
    | true ↦ read_loop once eofable turns a.1
    | false ↦ some a
  ]
]
