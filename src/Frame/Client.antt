-- ===== src/Frame/Client.antt =====
-- What the callbacks of a client keep of its context, the parser keeps.
pub mod Payload
pub mod Feed
