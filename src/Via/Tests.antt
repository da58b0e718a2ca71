-- ===== src/Via/Tests.antt =====
-- Concrete runs of the VIA's model.
use vekterm.Base.{ℕ, ◌^◌, ◌≡◌, refl, arith, true, false, List, [], ◌∷◌, ◌++◌, All}
use vekterm.Base.Int.{pos, negsuc, ◌+ℤ◌, ◌*ℤ◌}
use vekterm.Via.State.{Via, vx_reset}
use vekterm.Via.Write.{writes}
use vekterm.Via.Bounds.{Within, IsLine}
use vekterm.Via.Beam.{writes-IsExact}
use vekterm.Via.Dark.{IsDark, writes-IsDark}
use vekterm.Via.Stroke.{Ramp, stroke_writes, path, path_writes, writes-path_writes}

abbrev old : Via
old = record {
  via = λ i. 7;
  beam_x = pos 5;
  beam_y = pos 6;
  dac = pos 0;
  mux_en = true;
  mux_sel = 2;
  x_rate = pos 1;
  y_rate = pos 1;
  intensity = 200;
  beam_on = true;
  armed = true;
  a_xrate = pos 1;
  a_yrate = pos 1;
  a_visible = true;
  a_ticks = 9;
  g_sink = false;
  lines = [];
}

-- A brightness of 80 through the multiplexer, a line with the beam on, and a move with it off.
abbrev session : List (ℕ × ℕ)
session =
    (0xD000, 4) ∷ (0xD001, 80) ∷ stroke_writes 20 236 10 1 ++ ((0xD005, 0) ∷ (0xD00C, 0xCC) ∷ [])

writes-IsExact_example :
    let u = writes 4 session (vx_reset true old) in
    Within (2 ^ 53) u.beam_x × Within (2 ^ 53) u.beam_y × All (IsLine (2 ^ 53)) u.lines
writes-IsExact_example =
    writes-IsExact 4 true session old (omega arith) refl (ground arith) (omega arith)

-- A move with the beam off, after a reset.
abbrev moves : List (ℕ × ℕ)
moves = (0xD001, 30) ∷ (0xD005, 0) ∷ (0xD00A, 0) ∷ (0xD00C, 0xCE) ∷ []

abbrev fresh_via : Via
fresh_via = vx_reset true old

fresh_via-IsDark : IsDark fresh_via
unfolding vx_reset
fresh_via-IsDark = record { beam_off = refl; ramp_off = refl }

writes-IsDark_example :
    IsDark (writes 4 moves fresh_via) × ((writes 4 moves fresh_via).lines ≡ fresh_via.lines)
writes-IsDark_example = writes-IsDark 4 moves fresh_via (ground arith) fresh_via-IsDark

-- A bright beam at rest in the centre.
abbrev ready : Via
ready = record (vx_reset true old) { intensity = 80 }

abbrev corner : List Ramp
corner =
    record { dy = 0; dx = 100; lo = 20; hi = 0 } ∷ record { dy = 156; dx = 0; lo = 16; hi = 1 } ∷ []

writes-path_writes_example :
    (writes 4 (path_writes corner) ready).lines
    ≡ ready.lines ++ path 4 80 ready.beam_x ready.beam_y corner
writes-path_writes_example =
    unfold vx_reset in
    writes-path_writes 4 corner ready (omega arith) refl refl refl refl (omega arith) (omega arith)

corner_lines :
    path 4 80 (pos 0) (pos 0) corner
    ≡ record { x0 = pos 0; y0 = pos 0; x1 = pos 2400; y1 = pos 0; z = 80 }
      ∷ record { x0 = pos 2400; y0 = pos 0; x1 = pos 2400; y1 = negsuc 27599; z = 80 }
      ∷ []
unfolding path ◌+ℤ◌ ◌*ℤ◌
corner_lines = refl
