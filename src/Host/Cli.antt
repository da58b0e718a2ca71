-- ===== src/Host/Cli.antt =====
-- src/vekterm.c, the command line: `parse_int`, the loop over `argv` in `main`, and the test of the
-- brightness shift. What `strtol` makes of a text is an argument.
pub mod Reads
use Prim.Native.String.{String}
use text.Mathlib.Text.{◌==◌}
use vekterm.Base.{ℕ, Bool, true, false, not, ◌||◌, Option, none, some, List, [], ◌∷◌, if◌then◌else◌}
use vekterm.Base.Int.{ℤ, pos, negsuc, ltb_ℤ, to_int32}
use vekterm.Host.Stub.{Options}

-- The locals of `main` that the options set.
pub record Settings : Type 0 where
  pub opt : Options
  pub port : String
  pub input : Option String
  pub baud : ℤ
  pub dry_run : Bool
  pub once : Bool
  pub selftest : Bool

-- What they start from.
abbrev pub default_settings : Settings
default_settings = record {
  opt = record {
    vectrex_min = negsuc 2047;
    vectrex_max = pos 2047;
    scale = pos 0;
    bright_shift = pos 1;
    verbose = false;
  };
  port = "/dev/ttyGS0";
  input = none;
  baud = pos 2000000;
  dry_run = false;
  once = false;
  selftest = false;
}

-- What is printed when the program stops here.
pub data Notice : Type 0 where
  help : Notice
  version : Notice
  bad_shift : Notice
  missing : String → Notice
  unknown : String → Notice
  invalid : String → String → Notice

-- A result, or an exit with a code.
pub data Try (A : Type 0) : Type 0 where
  ok : A → Try A
  stop : ℕ → Notice → Try A

infixl 5 ◌>>=◌
abbrev pub ◌>>=◌ : {A B : Type 0} → Try A → (A → Try B) → Try B
ok a >>= f = f a
stop code n >>= f = stop code n

-- The value that `strtol` returns, whether it set `errno`, whether it read nothing, and whether it
-- stopped at the end of the text.
pub record Number : Type 0 where
  pub value : ℤ
  pub errno : Bool
  pub nothing_read : Bool
  pub at_end : Bool

-- The options, by their spellings.
pub data Switch : Type 0 where
  port baud input dry_run once scale min max bright_shift verbose selftest help version : Switch
  unknown : Switch

unfoldable pub classify : String → Switch
classify a =
    if a == "-p" || a == "--port"
    then port
    else (if a == "-b" || a == "--baud"
        then baud
        else (if a == "-i" || a == "--input"
            then input
            else (if a == "-n" || a == "--dry-run"
                then dry_run
                else (if a == "-1" || a == "--once"
                    then once
                    else (if a == "-s" || a == "--scale"
                        then scale
                        else (if a == "--min"
                            then min
                            else (if a == "--max"
                                then max
                                else (if a == "--bright-shift"
                                    then bright_shift
                                    else (if a == "-v" || a == "--verbose"
                                        then verbose
                                        else (if a == "-t" || a == "--selftest"
                                            then selftest
                                            else (if a == "-h" || a == "--help"
                                                then help
                                                else (if a == "--version"
                                                    then version
                                                    else Switch.unknown))))))))))))

abbrev pub takes_value : Switch → Bool
takes_value port = true
takes_value baud = true
takes_value input = true
takes_value scale = true
takes_value min = true
takes_value max = true
takes_value bright_shift = true
takes_value _ = false

abbrev pub set_opt : Settings → Options → Settings
set_opt s o = record s { opt = o }

module _ (strtol : String → Number) where
  -- `parse_int` of a value that is there. The conversion to `int` keeps the low 32 bits.
  unfoldable pub parse_int : String → String → Try ℤ
  parse_int name value =
      let n = strtol value in
      if n.errno || (n.nothing_read || not n.at_end)
      then stop 2 (invalid name value)
      else ok (to_int32 n.value)

  -- An option `a` with its value `v`.
  unfoldable pub take_value : Switch → String → String → Settings → Try Settings
  take_value port a v s = ok (record s { port = v })
  take_value baud a v s = parse_int a v >>= λ n. ok (record s { baud = n })
  take_value input a v s = ok (record s { input = some v })
  take_value scale a v s = parse_int a v >>= λ n. ok (set_opt s (record s.opt { scale = n }))
  take_value min a v s = parse_int a v >>= λ n. ok (set_opt s (record s.opt { vectrex_min = n }))
  take_value max a v s = parse_int a v >>= λ n. ok (set_opt s (record s.opt { vectrex_max = n }))
  take_value bright_shift a v s =
      parse_int a v >>= λ n. ok (set_opt s (record s.opt { bright_shift = n }))
  take_value _ a v s = stop 2 (Notice.unknown a)

  -- An option `a` that takes none, or an unknown one.
  unfoldable pub take_flag : Switch → String → Settings → Try Settings
  take_flag dry_run a s = ok (record s { dry_run = true })
  take_flag once a s = ok (record s { once = true })
  take_flag verbose a s = ok (set_opt s (record s.opt { verbose = true }))
  take_flag selftest a s = ok (record s { selftest = true })
  take_flag help a s = stop 0 Notice.help
  take_flag version a s = stop 0 Notice.version
  take_flag _ a s = stop 2 (Notice.unknown a)

  -- The loop over `argv`.
  unfoldable pub parse : List String → Settings → Try Settings
  parse [] s = ok s
  parse (a ∷ []) s =
      if takes_value (classify a) then stop 2 (missing a) else take_flag (classify a) a s
  parse (a ∷ v ∷ args) s = elim (takes_value (classify a)) [
    | true ↦ take_value (classify a) a v s >>= λ s'. parse args s'
    | false ↦ take_flag (classify a) a s >>= λ s'. parse (v ∷ args) s'
  ]

  -- The options with the test that follows them.
  unfoldable pub read_args : List String → Try Settings
  read_args args = parse args default_settings >>= λ s.
      if ltb_ℤ s.opt.bright_shift (pos 0) || ltb_ℤ (pos 8) s.opt.bright_shift
      then stop 2 bad_shift
      else ok s
