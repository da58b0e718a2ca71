-- ===== src/Receiver.antt =====
-- src/vekterm_baremetal.c: the receiver that runs on the bare machine. `State` is its globals,
-- `Callbacks` what the parser calls, `Reply` the flow control, `Text` the lines of the splash and
-- `Loop` one turn of the main loop.
pub mod State
pub mod Callbacks
pub mod Draw
pub mod Picture
pub mod Reply
pub mod Text
pub mod Loop
pub mod Turns
pub mod Silence
pub mod Expiry
pub mod Session
pub mod Ready
mod Tests
