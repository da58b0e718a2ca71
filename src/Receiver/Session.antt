-- ===== src/Receiver/Session.antt =====
-- src/vekterm_baremetal.c and its sender: one frame or ping for each reply, from the bytes that the
-- UART finds to the calls that draw. `Calm` is a stream without activity before its end, `Bytes` the
-- bytes of a frame as one, `Hear` the receive loop over it, `State` the receiver between two frames,
-- `Reply` the end of a turn, `Turn` the turn of a frame or a ping, `Drawn` what has been drawn, and
-- `Series` many turns. `Lapse` is a receive loop that runs out of time, and `Cut` the loss of a part
-- of a frame.
pub mod Calm
pub mod Bytes
pub mod Hear
pub mod State
pub mod Reply
pub mod Turn
pub mod Drawn
pub mod Lapse
pub mod Cut
pub mod Series
