-- ===== src/Font.antt =====
-- src/font.h and src/font.c: text as vectors. `Draw` is the code, `Total` that no text makes it fail,
-- `Glyph` what it draws of one glyph and `Outline` of a text.
pub mod Draw
pub mod Total
mod Glyph
pub mod Outline
mod Tests
