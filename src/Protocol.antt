-- ===== src/Protocol.antt =====
-- src/protocol.h and src/protocol.c: the command words of the wire protocol. `Word` decodes a
-- word, `Encode` builds one, `Hello` is the capability channel and `Coord` the colour and
-- coordinate arithmetic.
pub mod Word
pub mod Encode
pub mod Hello
pub mod Coord
pub mod Message
pub mod Sums
pub mod RoundTrip
mod Tests
