-- ===== src/Frame/Tests.antt =====
-- The worked example of docs/PROTOCOL.md through the parser, and each theorem at one input.
mod Streams
mod Hostile
mod Safe
