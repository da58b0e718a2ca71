-- ===== src/Receiver/State.antt =====
-- src/vekterm_baremetal.c: the settings of the default build, the globals, and the calls of the
-- device libraries, which are recorded in their order.
use vekterm.Base.{ℕ, Bool, List, [], ◌∷◌, ◌++◌}
use vekterm.Base.Int.{ℤ, pos, negsuc}

abbrev pub uart_baud : ℕ
uart_baud = 1280000

abbrev pub baud_options : List ℕ
baud_options = 1280000 ∷ 2000000 ∷ 1000000 ∷ 921600 ∷ 500000 ∷ 115200 ∷ []

-- VT_VECTREX_MIN is -10000.
abbrev pub vectrex_min : ℤ
vectrex_min = negsuc 9999

abbrev pub vectrex_max : ℤ
vectrex_max = pos 10000

abbrev pub bright_shift : ℕ
bright_shift = 1

abbrev pub idle_timeout_us : ℕ
idle_timeout_us = 30000000

abbrev pub rx_timeout_us : ℕ
rx_timeout_us = 50000

abbrev pub rx_spins : ℕ
rx_spins = 5000000

abbrev pub sync_byte : ℕ
sync_byte = 6

abbrev pub sync_flag_overflow : ℕ
sync_flag_overflow = 1

abbrev pub sync_flag_idle : ℕ
sync_flag_idle = 2

-- `draw_seg`
pub record DrawSeg : Type 0 where
  pub x0 : ℤ
  pub y0 : ℤ
  pub x1 : ℤ
  pub y1 : ℤ
  pub z : ℕ

-- The calls of RPI_AuxMiniUartWrite, RPI_AuxMiniUartInit, v_WaitRecal, v_directDraw32 and
-- vt_draw_string, with the arguments that vary, and those that bring up the device: vectrexinit,
-- v_setName, v_init, v_setRefresh and the line on the console, with its number. A text is its
-- character codes.
pub data Call : Type 0 where
  write line_rate vectrexinit set_refresh banner : ℕ → Call
  set_name : List ℕ → Call
  wait_recal v_init : Call
  direct_draw : DrawSeg → Call
  draw_string : ℤ → ℤ → List ℕ → ℕ → Call

-- The globals, the `prev` of the button handler, and the calls made so far.
pub record Globals : Type 0 where
  pub g_draw : List DrawSeg
  pub g_draw_count : ℕ
  pub g_have_frame : Bool
  pub g_overflow : Bool
  pub g_activity : Bool
  pub g_peer_v2 : Bool
  pub g_baud_idx : ℕ
  pub g_cur_baud : ℕ
  pub prev : ℕ
  pub calls : List Call

-- The calls of `main` up to the line rate.
abbrev pub device_up : List Call
device_up =
    vectrexinit 1
    ∷ set_name (118 ∷ 101 ∷ 107 ∷ 116 ∷ 101 ∷ 114 ∷ 109 ∷ [])
    ∷ v_init
    ∷ set_refresh 50
    ∷ banner uart_baud
    ∷ line_rate uart_baud
    ∷ []

abbrev pub emit : Globals → List Call → Globals
emit g cs = record g { calls = g.calls ++ cs }
