-- ===== src/Host.antt =====
-- src/vekterm.c, src/backend_stub.c and src/serial.c: the tool that decodes a stream on an ordinary
-- computer. `Stub` is the backend that prints what it is given, `App` the callbacks and the self
-- test, `Cli` the command line, `Serial` the port, `Loop` the main loop and `Main` the whole.
pub mod Stub
pub mod App
pub mod Cli
pub mod Serial
pub mod Loop
pub mod Selftest
pub mod Chunks
pub mod Seen
pub mod Replay
pub mod Main
mod Tests
