-- ===== src/Emu.antt =====
-- tools/emu/emu_main.c: the framebuffer of the emulator. `Raster` is how a line gets into it, `Ends`
-- that its steps lead to its end, `Fits` that no `int` overflows, `Inside` that it stays inside, and `Replay` the drawing of a file.
pub mod Raster
pub mod Ends
mod Fits
pub mod Inside
pub mod Replay
pub mod Gen
pub mod Main
pub mod Run
pub mod Capture
pub mod Wire
pub mod Shim
mod Tests
