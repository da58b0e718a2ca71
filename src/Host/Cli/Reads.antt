-- ===== src/Host/Cli/Reads.antt =====
-- The command line is read as the list of settings that it spells.
use Prim.Native.String.{String}
use vekterm.Base.{
  ◌≤◌, ◌<◌, ◌^◌, ◌≡◌, refl, Bool, if◌then◌else◌, true, false, some, List, [], ◌∷◌, ap, ◌∙◌, All,
}
use vekterm.Base.Int.{ℤ, pos_part, neg_part, to_int32_id}
use vekterm.Host.Cli.{
  takes_value, Settings, Number, Try, ok, set_opt, ◌>>=◌, classify, parse_int, take_value,
  take_flag, parse,
}

-- What an option sets, with the text that a number is spelled with, and whether the option is spelled
-- by its short name; three have no short one.
pub data Setting : Type 0 where
  port_is input_is : Bool → String → Setting
  baud_is scale_is : Bool → String → ℤ → Setting
  min_is max_is shift_is : String → ℤ → Setting
  runs_dry shows_once talks tests : Bool → Setting

-- `strtol` reads the whole text as this number, which fits an `int`.
pub record Reads (strtol : String → Number) (text : String) (z : ℤ) : Type 0 where
  pub below : pos_part z < 2 ^ 31
  pub above : neg_part z ≤ 2 ^ 31
  pub read : strtol text ≡ record { value = z; errno = false; nothing_read = false; at_end = true }

-- The texts of the numbers in a setting are read as those numbers.
abbrev pub IsNumeric : (String → Number) → Setting → Type 0
IsNumeric strtol (baud_is b t z) = Reads strtol t z
IsNumeric strtol (scale_is b t z) = Reads strtol t z
IsNumeric strtol (min_is t z) = Reads strtol t z
IsNumeric strtol (max_is t z) = Reads strtol t z
IsNumeric strtol (shift_is t z) = Reads strtol t z
IsNumeric strtol _ = Unit

-- The settings after one more; a later one replaces an earlier.
unfoldable pub applied : Setting → Settings → Settings
applied (port_is b v) s = record s { port = v }
applied (input_is b v) s = record s { input = some v }
applied (baud_is b t n) s = record s { baud = n }
applied (scale_is b t n) s = set_opt s (record s.opt { scale = n })
applied (min_is t n) s = set_opt s (record s.opt { vectrex_min = n })
applied (max_is t n) s = set_opt s (record s.opt { vectrex_max = n })
applied (shift_is t n) s = set_opt s (record s.opt { bright_shift = n })
applied (runs_dry b) s = record s { dry_run = true }
applied (shows_once b) s = record s { once = true }
applied (talks b) s = set_opt s (record s.opt { verbose = true })
applied (tests b) s = record s { selftest = true }

unfoldable pub all_applied : List Setting → Settings → Settings
all_applied [] s = s
all_applied (x ∷ xs) s = all_applied xs (applied x s)

-- The arguments that spell a setting.
abbrev named : Bool → String → String → String
named short brief long = if short then brief else long

unfoldable pub spelt : Setting → List String → List String
spelt (port_is b v) more = named b "-p" "--port" ∷ v ∷ more
spelt (input_is b v) more = named b "-i" "--input" ∷ v ∷ more
spelt (baud_is b t n) more = named b "-b" "--baud" ∷ t ∷ more
spelt (scale_is b t n) more = named b "-s" "--scale" ∷ t ∷ more
spelt (min_is t n) more = "--min" ∷ t ∷ more
spelt (max_is t n) more = "--max" ∷ t ∷ more
spelt (shift_is t n) more = "--bright-shift" ∷ t ∷ more
spelt (runs_dry b) more = named b "-n" "--dry-run" ∷ more
spelt (shows_once b) more = named b "-1" "--once" ∷ more
spelt (talks b) more = named b "-v" "--verbose" ∷ more
spelt (tests b) more = named b "-t" "--selftest" ∷ more

unfoldable pub all_spelt : List Setting → List String → List String
all_spelt [] more = more
all_spelt (x ∷ xs) more = spelt x (all_spelt xs more)

module _ (strtol : String → Number) where
  parse_int-read : (a t : String) (z : ℤ) → Reads strtol t z → parse_int strtol a t ≡ ok z
  unfolding parse_int
  parse_int-read a t z h = rw h.read (ap ok (to_int32_id z h.below h.above))

  parse-flag :
      (a : String) (args : List String) (s s' : Settings)
      → takes_value (classify a) ≡ false
      → take_flag strtol (classify a) a s ≡ ok s'
      → parse strtol (a ∷ args) s ≡ parse strtol args s'
  unfolding parse
  parse-flag a [] s s' h e = rw h e
  parse-flag a (v ∷ args) s s' h e =
      ap
        (λ b. elim b as (λ _. Try Settings) [
          | true ↦ take_value strtol (classify a) a v s >>= λ t. parse strtol args t
          | false ↦ take_flag strtol (classify a) a s >>= λ t. parse strtol (v ∷ args) t
        ])
        h
      ∙ ap (λ r. r >>= λ t. parse strtol (v ∷ args) t) e

  parse-valued :
      (a v : String) (args : List String) (s s' : Settings)
      → takes_value (classify a) ≡ true
      → take_value strtol (classify a) a v s ≡ ok s'
      → parse strtol (a ∷ v ∷ args) s ≡ parse strtol args s'
  unfolding parse
  parse-valued a v args s s' h e =
      ap
        (λ b. elim b as (λ _. Try Settings) [
          | true ↦ take_value strtol (classify a) a v s >>= λ t. parse strtol args t
          | false ↦ take_flag strtol (classify a) a s >>= λ t. parse strtol (v ∷ args) t
        ])
        h
      ∙ ap (λ r. r >>= λ t. parse strtol args t) e

  parse-spelt :
      (x : Setting) (more : List String) (s : Settings)
      → IsNumeric strtol x
      → parse strtol (spelt x more) s ≡ parse strtol more (applied x s)
  unfolding spelt applied classify take_value take_flag
  parse-spelt (port_is true v) more s h = parse-valued _ v more s _ refl refl
  parse-spelt (port_is false v) more s h = parse-valued _ v more s _ refl refl
  parse-spelt (input_is true v) more s h = parse-valued _ v more s _ refl refl
  parse-spelt (input_is false v) more s h = parse-valued _ v more s _ refl refl
  parse-spelt (baud_is true t n) more s h =
      parse-valued _ t more s _ refl (rw (parse_int-read "-b" t n h) refl)
  parse-spelt (baud_is false t n) more s h =
      parse-valued _ t more s _ refl (rw (parse_int-read "--baud" t n h) refl)
  parse-spelt (scale_is true t n) more s h =
      parse-valued _ t more s _ refl (rw (parse_int-read "-s" t n h) refl)
  parse-spelt (scale_is false t n) more s h =
      parse-valued _ t more s _ refl (rw (parse_int-read "--scale" t n h) refl)
  parse-spelt (min_is t n) more s h =
      parse-valued _ t more s _ refl (rw (parse_int-read "--min" t n h) refl)
  parse-spelt (max_is t n) more s h =
      parse-valued _ t more s _ refl (rw (parse_int-read "--max" t n h) refl)
  parse-spelt (shift_is t n) more s h =
      parse-valued _ t more s _ refl (rw (parse_int-read "--bright-shift" t n h) refl)
  parse-spelt (runs_dry true) more s h = parse-flag _ more s _ refl refl
  parse-spelt (runs_dry false) more s h = parse-flag _ more s _ refl refl
  parse-spelt (shows_once true) more s h = parse-flag _ more s _ refl refl
  parse-spelt (shows_once false) more s h = parse-flag _ more s _ refl refl
  parse-spelt (talks true) more s h = parse-flag _ more s _ refl refl
  parse-spelt (talks false) more s h = parse-flag _ more s _ refl refl
  parse-spelt (tests true) more s h = parse-flag _ more s _ refl refl
  parse-spelt (tests false) more s h = parse-flag _ more s _ refl refl

  -- Options that spell a list of settings, each by its short name or its long one, are taken in their order, a later one replacing an
  -- earlier, and the arguments that follow are parsed from there, if `strtol` reads the whole text
  -- of each number as that number and it fits an `int`.
  pub parse-all_spelt :
      (xs : List Setting) (more : List String) (s : Settings)
      → All (IsNumeric strtol) xs
      → parse strtol (all_spelt xs more) s ≡ parse strtol more (all_applied xs s)
  unfolding all_spelt all_applied
  parse-all_spelt [] more s h = refl
  parse-all_spelt (x ∷ xs) more s h =
      parse-spelt x (all_spelt xs more) s h.0 ∙ parse-all_spelt xs more (applied x s) h.1
