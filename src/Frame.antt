-- ===== src/Frame.antt =====
-- src/frame.h and src/frame.c: the streaming parser. `State` is its state, `Beam` the primitive
-- that stores a vector, `Ext` the extension payloads and `Parser` the word and byte machines.
pub mod State
pub mod Beam
pub mod Ext
pub mod Parser
pub mod Valid
pub mod Faults
pub mod Picture
pub mod Refine
pub mod Container
pub mod Client
mod Tests
