-- ===== src/Host/Main/Closed.antt =====
-- Every descriptor that the tool opens is closed, however it ends.
use mathlib.Core.Path.{subst}
use Prim.Native.String.{String}
use text.Mathlib.Text.{◌==◌}
use vekterm.Base.{
  ◌≡◌, refl, arith, Bool, true, false, Bool-cases, Option-cases, >>=-eq-some, inl, inr, Option, not,
  none, some, List, [], ◌∷◌, ◌++◌, if◌then◌else◌, ◌>>=◌, ap, sym, ◌∙◌,
}
use vekterm.Base.Int.{ℤ, pos, negsuc, ltb_ℤ}
use vekterm.Frame.State.{Parser}
use vekterm.Frame.Beam.{init}
use vekterm.Host.Stub.{stub_init}
use vekterm.Host.App.{App, app_sink, first_app, is_negative}
use vekterm.Host.Cli.{Settings, ok, stop, read_args}
use vekterm.Host.Serial.{
  Headers, Port, PortCall, closes, sets, flushes, warns, line_flags, vt_serial_open,
}
use vekterm.Host.Serial.Raw.{
  closings, IsApart, Opened, no_port, given_up, set_up, vt_serial_open-Opened,
}
use vekterm.Host.Loop.{Ended, is_running, read_loop}
use vekterm.Host.Main.{
  System, Outcome, stops, tests, no_source, no_memory, serves, open_source, close_source,
  source_is_eofable, reply_fd, serve_source, run_settings, main,
}

-- What `open` returned, 0 for standard input.
unfoldable pub opened : System → Settings → ℤ
opened sys s = elim s.input [
  | none ↦ (sys.open_port s.port).opened
  | some input ↦ if input == "-" then pos 0 else sys.open_file input
]

abbrev pub calls_of : Outcome → List PortCall
calls_of (no_source cs) = cs
calls_of (no_memory cs) = cs
calls_of (serves e p cs) = cs
calls_of _ = []

-- The program has ended.
abbrev pub is_over : Outcome → Bool
is_over (serves e p cs) = not (is_running e)
is_over _ = true

closings-append : (xs ys : List PortCall) → closings (xs ++ ys) ≡ closings xs ++ closings ys
unfolding closings
closings-append [] ys = refl
closings-append (closes fd ∷ xs) ys = ap (λ r. fd ∷ r) (closings-append xs ys)
closings-append (sets fd t ∷ xs) ys = closings-append xs ys
closings-append (flushes fd ∷ xs) ys = closings-append xs ys
closings-append (warns b ∷ xs) ys = closings-append xs ys

-- What a source that was opened as `fd` leaves to be closed: nothing more if it is given up.
pub record Owes (fd : ℤ) (r : ℤ × List PortCall) : Type 0 where
  pub given_up : is_negative r.0 ≡ true → closings r.1 ≡ fd ∷ []
  pub given : is_negative r.0 ≡ false → (r.0 ≡ fd) × (closings r.1 ≡ [])

above-negative : (fd : ℤ) → ltb_ℤ (pos 2) fd ≡ true → is_negative fd ≡ false
above-negative (pos n) h = refl
above-negative (negsuc n) h = ground arith

Opened-Owes :
    (h : Headers) (port : Port) (baud : ℤ) (r : ℤ × List PortCall)
    → ltb_ℤ (pos 2) port.opened ≡ true
    → Opened h port baud r
    → Owes port.opened r
unfolding closings
Opened-Owes h port baud _ above (no_port absent) =
    let there = above-negative port.opened above in record { given_up = λ e. cc; given = λ e. cc }
Opened-Owes h port baud _ above (given_up calls there closed) = record {
  given_up = λ e. closed;
  given = λ e. cc;
}
Opened-Owes h port baud _ above
      (set_up before after calls there known accepted none_closed is_raw in_speed out_speed) =
    record {
      given_up = λ e. cc;
      given = λ e. (refl, closings-append calls _ ∙ ap (λ r. r ++ []) none_closed);
    }

file-Owes :
    (b : Bool) (fd : ℤ)
    → ltb_ℤ (pos 2) (if b then pos 0 else fd) ≡ true
    → Owes (if b then pos 0 else fd) (if b then (pos 0, []) else (fd, []))
unfolding closings
file-Owes true fd above = ground arith
file-Owes false fd above =
    let there = above-negative fd above in record { given_up = λ e. cc; given = λ e. (refl, refl) }

abbrev source_with : System → Settings → Option String → ℤ × List PortCall
source_with sys s none = vt_serial_open sys.headers (sys.open_port s.port) s.baud
source_with sys s (some input) = if input == "-" then (pos 0, []) else (sys.open_file input, [])

open_source-Owes :
    (sys : System) (s : Settings)
    → IsApart sys.headers.crtscts (line_flags sys.headers)
    → ltb_ℤ (pos 2) (opened sys s) ≡ true
    → Owes (opened sys s) (open_source sys s)
unfolding open_source opened
open_source-Owes sys s apart above = by_input s.input above
  where
    by_input :
        (i : Option String)
        → ltb_ℤ (pos 2) (elim i as (λ _. ℤ) [
          | none ↦ (sys.open_port s.port).opened
          | some input ↦ if input == "-" then pos 0 else sys.open_file input
        ])
          ≡ true
        → Owes
            (elim i as (λ _. ℤ) [
              | none ↦ (sys.open_port s.port).opened
              | some input ↦ if input == "-" then pos 0 else sys.open_file input
            ])
            (elim i as (λ _. ℤ × List PortCall) [
              | none ↦ vt_serial_open sys.headers (sys.open_port s.port) s.baud
              | some input ↦ if input == "-" then (pos 0, []) else (sys.open_file input, [])
            ])
    by_input none above =
        Opened-Owes sys.headers (sys.open_port s.port) s.baud _ above
          (vt_serial_open-Opened sys.headers (sys.open_port s.port) s.baud apart)
    by_input (some input) above = file-Owes (input == "-") (sys.open_file input) above

closings-close_source : (fd : ℤ) → ltb_ℤ (pos 2) fd ≡ true → closings (close_source fd) ≡ fd ∷ []
unfolding closings
closings-close_source fd above = rw above refl

closings-last :
    (fd : ℤ) (calls : List PortCall)
    → ltb_ℤ (pos 2) fd ≡ true
    → closings calls ≡ []
    → closings (calls ++ close_source fd) ≡ fd ∷ []
closings-last fd calls above none_closed =
    closings-append calls (close_source fd)
    ∙ ap (λ r. r ++ closings (close_source fd)) none_closed
    ∙ closings-close_source fd above

serves-closings :
    (a : Ended × Parser App) (fd : ℤ) (calls : List PortCall)
    → closings (calls ++ close_source fd) ≡ fd ∷ []
    → is_over (serves a.0 a.1 (if is_running a.0 then calls else calls ++ close_source fd)) ≡ true
    → closings (if is_running a.0 then calls else calls ++ close_source fd) ≡ fd ∷ []
serves-closings a fd calls closed over = elim (Bool-cases (is_running a.0)) [
  | inl on ↦ cc
  | inr off ↦ rw off closed
]

abbrev or_none : Option Outcome → Outcome
or_none none = no_source []
or_none (some t) = t

serve_source-closings :
    (sys : System) (s : Settings) (fd : ℤ) (calls : List PortCall) (o : Outcome)
    → ltb_ℤ (pos 2) fd ≡ true
    → closings calls ≡ []
    → serve_source sys s fd calls ≡ some o
    → is_over o ≡ true
    → closings (calls_of o) ≡ fd ∷ []
unfolding serve_source
serve_source-closings sys s fd calls o above none_closed e over =
    let last = closings-last fd calls above none_closed in
    let next : Option vekterm.Host.Stub.Stub → Option Outcome = λ m.
      elim m as (λ _. Option Outcome) [
        | none ↦ some (no_memory (calls ++ close_source fd))
        | some stub ↦
            read_loop s.once (source_is_eofable (sys.fstat fd)) sys.turns
              (init (app_sink (first_app stub (reply_fd s fd))))
            >>= λ a.
                some (serves a.0 a.1 (if is_running a.0 then calls else calls ++ close_source fd))
      ] in
    elim (Option-cases (stub_init sys.memory s.opt)) [
      | inl full ↦
          let done : some (no_memory (calls ++ close_source fd)) ≡ some o =
            sym (ap next full) ∙ e in
          subst (λ (t : Option Outcome). closings (calls_of (or_none t)) ≡ fd ∷ []) done last
      | inr (stub, made) ↦
          let (a, looped, done) =
            >>=-eq-some
              (read_loop s.once (source_is_eofable (sys.fstat fd)) sys.turns
                (init (app_sink (first_app stub (reply_fd s fd)))))
              (λ a.
                some (serves a.0 a.1 (if is_running a.0 then calls else calls ++ close_source fd)))
              (sym (ap next made) ∙ e) in
          let same = ap or_none done in
          subst (λ t. closings (calls_of t) ≡ fd ∷ []) same
            (serves-closings a fd calls last (ap is_over same ∙ over))
    ]

-- If the command line is accepted and asks for no self test, and `open` gives a descriptor beyond
-- the standard streams, then whenever the program ends, be it for a port that it cannot set up, for
-- want of memory or after the loop, that descriptor has been closed exactly once and no other has;
-- if the flag of flow control is none of the line flags.
pub main-closings :
    (sys : System) (args : List String) (s : Settings) (o : Outcome)
    → IsApart sys.headers.crtscts (line_flags sys.headers)
    → read_args sys.strtol args ≡ ok s
    → s.selftest ≡ false
    → ltb_ℤ (pos 2) (opened sys s) ≡ true
    → main sys args ≡ some o
    → is_over o ≡ true
    → closings (calls_of o) ≡ opened sys s ∷ []
unfolding main run_settings
main-closings sys args s o apart read asked above e over =
    let r = open_source sys s in
    let owes = open_source-Owes sys s apart above in
    let accepted : run_settings sys s ≡ some o =
      sym (
        ap
          (λ t. elim t as (λ _. Option Outcome) [
            | stop code n ↦ some (stops code n)
            | ok s' ↦ run_settings sys s'
          ])
          read)
      ∙ e in
    let served : (if is_negative r.0 then some (no_source r.1) else serve_source sys s r.0 r.1)
        ≡ some o =
      sym (
        ap
          (λ b. elim b as (λ _. Option Outcome) [
            | true ↦ vekterm.Host.App.run_selftest sys.memory s.opt >>= λ t. some (tests t.0 t.1)
            | false ↦ if is_negative r.0 then some (no_source r.1) else serve_source sys s r.0 r.1
          ])
          asked)
      ∙ accepted in
    elim (Bool-cases (is_negative r.0)) [
      | inl refused ↦
          let done : some (no_source r.1) ≡ some o =
            sym (ap (λ b. if b then some (no_source r.1) else serve_source sys s r.0 r.1) refused)
            ∙ served in
          ap (λ (t : Option Outcome). closings (calls_of (or_none t))) (sym done)
          ∙ owes.given_up refused
      | inr there ↦
          let (same, none_closed) = owes.given there in
          let go : serve_source sys s r.0 r.1 ≡ some o =
            sym (ap (λ b. if b then some (no_source r.1) else serve_source sys s r.0 r.1) there)
            ∙ served in
          let above' = ap (λ fd. ltb_ℤ (pos 2) fd) same ∙ above in
          serve_source-closings sys s r.0 r.1 o above' none_closed go over ∙ ap (λ fd. fd ∷ []) same
    ]
