-- ===== src/Via/State.antt =====
-- tools/emu/via_vectrex.c: the state, the ramps and what is read. The `double`s are integers: they
-- are sums of products of a rate and a number of ticks, which stay far below 2 ^ 53.
use vekterm.Base.{
  ℕ, ◌+◌, Bool, true, false, ◌&&◌, not, List, [], ◌∷◌, ◌++◌, ltb, ◌==◌, if◌then◌else◌, bit_or, shl,
  low_bits, bit_set,
}
use vekterm.Base.Int.{ℤ, pos, ◌+ℤ◌, ◌*ℤ◌}

-- A call of the sink's `line`.
pub record Lit : Type 0 where
  pub x0 : ℤ
  pub y0 : ℤ
  pub x1 : ℤ
  pub y1 : ℤ
  pub z : ℕ

-- The globals. `via` gives each register's byte, `g_sink` whether the sink has a `line`, and `lines`
-- the calls of it so far.
pub record Via : Type 0 where
  pub via : ℕ → ℕ
  pub beam_x : ℤ
  pub beam_y : ℤ
  pub dac : ℤ
  pub mux_en : Bool
  pub mux_sel : ℕ
  pub x_rate : ℤ
  pub y_rate : ℤ
  pub intensity : ℕ
  pub beam_on : Bool
  pub armed : Bool
  pub a_xrate : ℤ
  pub a_yrate : ℤ
  pub a_visible : Bool
  pub a_ticks : ℕ
  pub g_sink : Bool
  pub lines : List Lit

abbrev pub r_portb : ℕ
r_portb = 0

abbrev pub r_porta : ℕ
r_porta = 1

abbrev pub r_t1cl : ℕ
r_t1cl = 4

abbrev pub r_t1ch : ℕ
r_t1ch = 5

abbrev pub r_sr : ℕ
r_sr = 10

abbrev pub r_pcr : ℕ
r_pcr = 12

abbrev pub r_ifr : ℕ
r_ifr = 13

abbrev pub r_panh : ℕ
r_panh = 15

-- `vx_reset`; the calls made before it are not undone.
unfoldable pub vx_reset : Bool → Via → Via
vx_reset sink v = record {
  via = λ _. 0;
  beam_x = pos 0;
  beam_y = pos 0;
  dac = pos 0;
  mux_en = false;
  mux_sel = 0;
  x_rate = pos 0;
  y_rate = pos 0;
  intensity = 0;
  beam_on = false;
  armed = false;
  a_xrate = pos 0;
  a_yrate = pos 0;
  a_visible = false;
  a_ticks = 0;
  g_sink = sink;
  lines = v.lines;
}

-- Where the armed ramp takes the beam.
abbrev pub ramp_x : Via → ℤ
ramp_x v = v.beam_x +ℤ v.a_xrate *ℤ pos v.a_ticks

abbrev pub ramp_y : Via → ℤ
ramp_y v = v.beam_y +ℤ v.a_yrate *ℤ pos v.a_ticks

-- The test of `commit_ramp` before it calls the sink.
abbrev pub is_lit : Via → Bool
is_lit v =
    v.a_visible && (not (bit_set v.intensity 7) && (ltb 0 (low_bits v.intensity 7) && v.g_sink))

abbrev pub lit_line : Via → Lit
lit_line v = record {
  x0 = v.beam_x;
  y0 = v.beam_y;
  x1 = ramp_x v;
  y1 = ramp_y v;
  z = low_bits v.intensity 7;
}

unfoldable pub commit_ramp : Via → Via
commit_ramp v =
    if v.armed
    then record v {
      lines = if is_lit v then v.lines ++ (lit_line v ∷ []) else v.lines;
      beam_x = ramp_x v;
      beam_y = ramp_y v;
      armed = false;
    }
    else v

-- `arm_ramp`; `dif` is libpitrex's SCALE_STRENGTH_DIF.
unfoldable pub arm_ramp : ℕ → Via → Via
arm_ramp dif v =
    let u = commit_ramp v in
    record u {
      a_ticks = bit_or (u.via r_t1cl) (shl (u.via r_t1ch) 8) + dif;
      a_xrate = u.x_rate;
      a_yrate = u.y_rate;
      a_visible = u.beam_on;
      armed = true;
    }

-- `vectrexread`
unfoldable pub vectrexread : ℕ → Via → ℕ
vectrexread address v =
    let a = low_bits address 4 in
    if a == r_ifr
    then 0xFF
    else (if a == r_porta then 0xFF else (if a == r_panh then 0xFF else v.via a))

unfoldable pub vectrexread_short : ℕ → Via → ℕ
vectrexread_short address v = vectrexread address v

-- The model needs no bring-up.
unfoldable pub vectrexinit : Via → ℕ × Via
vectrexinit v = (1, v)

unfoldable pub vectrexclose : Via → ℕ × Via
vectrexclose v = (1, commit_ramp v)

unfoldable pub vx_beam_pos : Via → ℤ × ℤ
vx_beam_pos v = (v.beam_x, v.beam_y)

unfoldable pub vx_flush : Via → Via
vx_flush v = commit_ramp v
