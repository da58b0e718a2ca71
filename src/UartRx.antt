-- ===== src/UartRx.antt =====
-- src/uart_rx.h and src/uart_rx.c: the receive ring of the mini-UART. `Ring` is the code, `Queue`
-- the bounded queue that it promises and `Refine` how the one implements the other.
pub mod Ring
pub mod Queue
pub mod Cells
pub mod Refine
mod Tests
