-- ===== src/Via.antt =====
-- tools/emu/via_vectrex.c: the model of the Vectrex's 6522 VIA and vector generator that stands in
-- for the hardware. `State` is its state, `Write` the register writes, `Beam` what keeps the beam in
-- range, `Dark` a blanked beam and `Stroke` the writes that draw a line.
pub mod State
pub mod Write
pub mod Bounds
pub mod Beam
pub mod Dark
pub mod Stroke
mod Tests
