-- ===== src/Frame/Refine.antt =====
-- The parser of src/frame.c implements the picture that a stream of messages draws.
pub mod Store
pub mod Word
pub mod Client
pub mod Stream
pub mod Resync
