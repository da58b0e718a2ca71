-- ===== src/Receiver/Text.antt =====
-- src/vekterm_baremetal.c: the text helpers and the splash. A text is its character codes; the
-- build's version and commit are arguments.
use mathlib.Core.List.{append-nil, append_assoc}
use native.Mathlib.Nat.{pow-suc}
use vekterm.Base.{
  false, sym, Bool-cases, inl, inr, All, All-append, dec_lt, lt→ltb, le→ltb, ℕ, zero, suc, ◌+◌, ◌-◌,
  ◌*◌, ◌/◌, ◌%◌, ◌≤◌, ◌<◌, ◌^◌, ◌==◌, ◌≡◌, refl, arith, List, [], ◌∷◌, ◌++◌, length, length-append,
  ltb, if◌then◌else◌,
}
use vekterm.Base.Int.{pos, negsuc}
use vekterm.Receiver.State.{draw_string, Globals, emit}

-- The first loop of `append_u32`, with `n` places of `tmp` left: the digits of `v`, lowest first.
unfoldable pub low_digits : ℕ → ℕ → List ℕ
low_digits zero v = []
low_digits (suc n) v = if v == 0 then [] else (48 + v % 10) ∷ low_digits n (v / 10)

-- The second loop, which takes the digits from the last.
unfoldable pub put_back : List ℕ → List ℕ → List ℕ
put_back buf [] = buf
put_back buf (d ∷ tmp) = put_back buf tmp ++ (d ∷ [])

-- `append_u32`. The text so far is `buf` up to `*pos`.
unfoldable pub append_u32 : List ℕ → ℕ → List ℕ
append_u32 buf v = if v == 0 then buf ++ (48 ∷ []) else put_back buf (low_digits 10 v)

-- `append_str`
unfoldable pub append_str : List ℕ → List ℕ → ℕ → List ℕ
append_str buf [] cap = buf
append_str buf (c ∷ s) cap =
    let rest = append_str (buf ++ (c ∷ [])) s cap in
    if ltb (length buf) (cap - 1) then rest else buf

-- What a reader makes of the digits of a number.
abbrev pub value_of : ℕ → List ℕ → ℕ
value_of acc [] = acc
value_of acc (d ∷ ds) = value_of (acc * 10 + (d - 48)) ds

value_of-append :
    (acc : ℕ) (xs ys : List ℕ) → value_of acc (xs ++ ys) ≡ value_of (value_of acc xs) ys
value_of-append acc [] ys = refl
value_of-append acc (x ∷ xs) ys = value_of-append (acc * 10 + (x - 48)) xs ys

put_back-append : (buf tmp : List ℕ) → put_back buf tmp ≡ buf ++ put_back [] tmp
unfolding put_back
put_back-append buf [] = sym (append-nil buf)
put_back-append buf (d ∷ tmp) =
    rw (put_back-append buf tmp) (append_assoc buf (put_back [] tmp) (d ∷ []))

-- The character of a digit.
abbrev pub IsDigit : ℕ → Type 0
IsDigit c = (48 ≤ c) × (c < 58)

-- What the digits of `v` are when `n` places are enough for them.
record Spells (n v : ℕ) (digits : List ℕ) : Type 0 where
  worth : value_of 0 digits ≡ v
  short : length digits ≤ n
  plain : All IsDigit digits

low_digits-Spells : (n v : ℕ) → v < 10 ^ n → Spells n v (put_back [] (low_digits n v))
unfolding low_digits put_back
low_digits-Spells zero v h = record { worth = omega arith; short = omega arith; plain = tt }
low_digits-Spells (suc n) v h = elim (Bool-cases (v == 0)) [
  | inl none_left ↦ rw none_left (record { worth = ground arith; short = omega arith; plain = tt })
  | inr some_left ↦
      let smaller : v / 10 < 10 ^ n = omega (arith, pow-suc 10 n) in
      let high = low_digits-Spells n (v / 10) smaller in
      let digits : List ℕ = put_back [] (low_digits n (v / 10)) in
      let last : ℕ = 48 + v % 10 in
      rw some_left (record {
        worth = omega (arith, value_of-append 0 digits (last ∷ []), high.worth);
        short = omega (arith, length-append digits (last ∷ []), high.short);
        plain = All-append IsDigit digits (last ∷ []) high.plain (omega arith);
      })
]

nonempty : (v : ℕ) (digits : List ℕ) → (v == 0) ≡ false → value_of 0 digits ≡ v → 1 ≤ length digits
nonempty v [] more e = absurd (ground arith)
nonempty v (d ∷ digits) more e = omega arith

-- A number of 32 bits is appended as at most ten decimal digits, which are read back as that
-- number.
pub append_u32_lem :
    (buf : List ℕ) (v : ℕ)
    → v < 2 ^ 32
    → (digits : List ℕ) × (append_u32 buf v ≡ buf ++ digits)
      × (value_of 0 digits ≡ v)
      × (1 ≤ length digits)
      × (length digits ≤ 10)
      × All IsDigit digits
unfolding append_u32
append_u32_lem buf v h = elim (Bool-cases (v == 0)) [
  | inl zero_here ↦
      (48 ∷ [], rw zero_here refl, ground arith, omega arith, omega arith, omega arith)
  | inr more ↦
      let digits : List ℕ = put_back [] (low_digits 10 v) in
      let spelt = low_digits-Spells 10 v (omega arith) in
      (
        digits,
        rw more (put_back-append buf (low_digits 10 v)),
        spelt.worth,
        nonempty v digits more spelt.worth,
        spelt.short,
        spelt.plain,
      )
]

-- Appending a string never goes past the last place but one of the buffer.
length-append_str :
    (buf s : List ℕ) (cap : ℕ) → length buf < cap → length (append_str buf s cap) < cap
unfolding append_str
length-append_str buf [] cap h = h
length-append_str buf (c ∷ s) cap h = elim (dec_lt (length buf) (cap - 1)) [
  | yes room ↦
      rw (lt→ltb (length buf) (cap - 1) room)
        (length-append_str (buf ++ (c ∷ [])) s cap (omega (arith, length-append buf (c ∷ []))))
  | no full ↦ rw (le→ltb (length buf) (cap - 1) (omega arith)) h
]

-- The character codes of the texts of the splash.
abbrev title : List ℕ
title = 86 ∷ 69 ∷ 75 ∷ 84 ∷ 69 ∷ 82 ∷ 77 ∷ []

abbrev waiting_text : List ℕ
waiting_text = 87 ∷ 65 ∷ 73 ∷ 84 ∷ 73 ∷ 78 ∷ 71 ∷ 32 ∷ 70 ∷ 79 ∷ 82 ∷ 32 ∷ 68 ∷ 65 ∷ 84 ∷ 65 ∷ []

abbrev baud_8n1 : List ℕ
baud_8n1 = 32 ∷ 66 ∷ 65 ∷ 85 ∷ 68 ∷ 32 ∷ 56 ∷ 78 ∷ 49 ∷ []

abbrev hint_text : List ℕ
hint_text = 66 ∷ 84 ∷ 78 ∷ 58 ∷ 32 ∷ 67 ∷ 89 ∷ 67 ∷ 76 ∷ 69 ∷ 32 ∷ 66 ∷ 65 ∷ 85 ∷ 68 ∷ []

-- `sizeof line`
abbrev pub line_size : ℕ
line_size = 40

-- The second and the fourth line.
unfoldable pub version_line : List ℕ → List ℕ → List ℕ
version_line version commit =
    append_str (append_str [] (version ++ (32 ∷ [])) line_size) commit line_size

unfoldable pub baud_line : ℕ → List ℕ
baud_line baud = append_str (append_u32 [] baud) baud_8n1 line_size

unfoldable pub draw_idle_splash : List ℕ → List ℕ → Globals → Globals
draw_idle_splash version commit g = emit g (
    draw_string (negsuc 57) (pos 64) title 8
    ∷ draw_string (negsuc 57) (pos 28) (version_line version commit) 3
    ∷ draw_string (negsuc 57) (pos 2) waiting_text 4
    ∷ draw_string (negsuc 57) (negsuc 27) (baud_line g.g_cur_baud) 4
    ∷ draw_string (negsuc 57) (negsuc 57) hint_text 3
    ∷ [])

-- The lines that the splash builds leave room for the NUL in their buffer of 40, whatever the
-- version, the commit and the line rate are.
splash_lines_fit :
    (version commit : List ℕ) (baud : ℕ)
    → baud < 2 ^ 32
    → (length (version_line version commit) < 40) × (length (baud_line baud) < 40)
unfolding version_line baud_line
splash_lines_fit version commit baud h =
    let (digits, appended, worth, some_digit, short, plain) = append_u32_lem [] baud h in
    let named = length-append_str [] (version ++ (32 ∷ [])) 40 (omega arith) in
    (
      length-append_str (append_str [] (version ++ (32 ∷ [])) 40) commit 40 named,
      length-append_str (append_u32 [] baud) baud_8n1 40 (rw appended (omega arith)),
    )
