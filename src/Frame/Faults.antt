-- ===== src/Frame/Faults.antt =====
-- Which payloads make the expanders of src/frame.c read past their buffer.
pub mod Readers
pub mod Heightfield
pub mod Polyline
pub mod Feed
