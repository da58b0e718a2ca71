-- ===== src/Host/Tests/Programs.antt =====
-- Runs of the whole program, over a file that is cut inside a word, without memory, and over a port.
use Prim.Native.String.{String}
use vekterm.Base.{
  concat, ℕ, ◌≡◌, refl, arith, Bool, true, false, if◌then◌else◌, Option, none, some, List, [], ◌∷◌,
  take, drop, length, All, u64,
}
use vekterm.Base.Int.{pos}
use vekterm.Protocol.Word.{pack_be}
use vekterm.Protocol.Message.{Message, header, colour, move, draw, done, ping}
use vekterm.Frame.State.{Parser}
use vekterm.Frame.Picture.{blank, performs}
use vekterm.Frame.Refine.Stream.{transmit}
use vekterm.Host.Stub.{stub_init}
use vekterm.Host.App.{App}
use vekterm.Host.Cli.{
  Number, Settings, ok, default_settings, classify, take_value, take_flag, parse, read_args,
}
use vekterm.Host.Serial.{Bits, Headers, Port, closes, vt_serial_open}
use vekterm.Host.Serial.Raw.{closings, Opened, vt_serial_open-Opened}
use vekterm.Host.Loop.{end_of_file}
use vekterm.Host.Chunks.{turns}
use vekterm.Host.Seen.{report, without_pings}
use vekterm.Host.Main.{
  System, regular_file, source_is_eofable, no_memory, serves, open_source, serve_source,
  run_settings, main,
}
use vekterm.Host.Main.Closed.{opened, calls_of, main-closings}
use vekterm.Host.Main.Report.{Replays, main-report}

abbrev bit : ℕ → Bits
bit n = λ i. vekterm.Base.◌==◌ i n

abbrev some_headers : Headers
some_headers = record {
  ignbrk = bit 0;
  brkint = bit 1;
  parmrk = bit 3;
  istrip = bit 5;
  inlcr = bit 6;
  igncr = bit 7;
  icrnl = bit 8;
  ixon = bit 10;
  ixoff = bit 12;
  ixany = bit 11;
  opost = bit 0;
  echo = bit 3;
  echonl = bit 6;
  icanon = bit 1;
  isig = bit 0;
  iexten = bit 15;
  csize = bit 4;
  parenb = bit 8;
  cstopb = bit 6;
  cs8 = bit 4;
  clocal = bit 11;
  cread = bit 7;
  crtscts = some (bit 31);
  vmin = 6;
  vtime = 5;
  b3000000 = none;
  b2000000 = some 4107;
  b1500000 = none;
  b1000000 = some 4104;
  b921600 = none;
  b460800 = none;
  b230400 = some 4099;
  b115200 = 4098;
  b57600 = 4097;
  b38400 = 15;
  b19200 = 14;
  b9600 = 13;
}

abbrev no_number : String → Number
no_number text = record { value = pos 0; errno = false; nothing_read = true; at_end = false }

abbrev some_port : Port
some_port = record {
  opened = pos 4;
  attributes = some (record {
    c_iflag = λ i. true;
    c_oflag = λ i. true;
    c_lflag = λ i. true;
    c_cflag = λ i. true;
    c_cc = λ i. 1;
    ispeed = 0;
    ospeed = 0;
  });
  accepted = true;
}

vt_serial_open-Opened_example :
    Opened some_headers some_port (pos 9600) (vt_serial_open some_headers some_port (pos 9600))
vt_serial_open-Opened_example =
    vt_serial_open-Opened some_headers some_port (pos 9600) (λ i h. ground arith)

abbrev line_twice : List Message
line_twice =
    ping
    ∷ header 400
    ∷ colour 240 240 240
    ∷ move 2049 2050
    ∷ draw 2449 2050
    ∷ done false
    ∷ header 9
    ∷ draw 5 5
    ∷ done true
    ∷ []

-- The first read ends inside a word.
abbrev cut : List (List ℕ)
cut = take 3 (transmit line_twice) ∷ drop 3 (transmit line_twice) ∷ []

concat-cut : concat cut ≡ transmit line_twice
unfolding transmit pack_be
concat-cut = refl

abbrev some_system : Bool → System
some_system memory = record {
  strtol = no_number;
  headers = some_headers;
  open_file = λ name. pos 5;
  open_port = λ name. some_port;
  fstat = λ fd. some regular_file;
  memory = memory;
  turns = turns cut;
}

abbrev some_args : List String
some_args = "-v" ∷ "-i" ∷ "capture.bin" ∷ []

abbrev replay : Settings
replay = record default_settings {
  input = some "capture.bin";
  opt = record default_settings.opt { verbose = true };
}

some_args-replay : read_args no_number some_args ≡ ok replay
unfolding read_args parse classify take_value take_flag
some_args-replay = refl

replay-Replays : Replays (some_system true) replay "capture.bin" cut
replay-Replays = record {
  no_test = refl;
  to_end = refl;
  named = refl;
  no_stdin = refl;
  found = refl;
  regular = unfold source_is_eofable in refl;
  memory = refl;
  reads = refl;
}

main-report_example :
    (q : Parser App) × (main (some_system true) some_args
      ≡ some (serves end_of_file q (closes (pos 5) ∷ [])))
    × (without_pings q.sink.ctx.stdout ≡ report true 0 (performs line_twice (blank 0) []))
    × (q.sink.ctx.frames ≡ u64 (length (performs line_twice (blank 0) [])))
main-report_example =
    main-report (some_system true) some_args replay "capture.bin" line_twice cut some_args-replay
      replay-Replays refl (ground arith) (ground arith) concat-cut

main-full : main (some_system false) some_args ≡ some (no_memory (closes (pos 5) ∷ []))
unfolding main run_settings open_source serve_source stub_init read_args parse classify take_value
    take_flag
main-full = refl

main-closings_example :
    closings (calls_of (no_memory (closes (pos 5) ∷ []))) ≡ opened (some_system false) replay ∷ []
main-closings_example =
    main-closings (some_system false) some_args replay (no_memory (closes (pos 5) ∷ []))
      (λ i h. ground arith) some_args-replay refl (unfold opened in refl) main-full refl
