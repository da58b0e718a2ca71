-- ===== src/UartRx/Ring.antt =====
-- src/uart_rx.c: the ring buffer, in the default build, where bytes are polled for and no interrupt
-- handler runs. What the hardware FIFO holds is an argument: the values that MU_IO is read as while
-- MU_LSR says that data is ready.
use vekterm.Base.{
  ℕ, ◌+◌, ◌==◌, Bool, not, Option, some, List, [], ◌∷◌, if◌then◌else◌, ◌>>=◌, u8, u32, low_bits,
  get_elem?, set,
}
use vekterm.Base.Int.{ℤ, pos, negsuc}

abbrev pub rxbuf_size : ℕ
rxbuf_size = 16384

-- `x & RXBUF_MASK`, a mask of fourteen ones
abbrev pub rx_mask : ℕ → ℕ
rx_mask x = low_bits x 14

-- `rxbuf`, `rx_head`, `rx_tail` and `rx_drops`
pub record Ring : Type 0 where
  pub rxbuf : List ℕ
  pub rx_head : ℕ
  pub rx_tail : ℕ
  pub rx_drops : ℕ

-- The body of the loop of `drain_fifo`.
unfoldable pub push : Ring → ℕ → Ring
push r io =
    let next = rx_mask (r.rx_head + 1) in
    if next == r.rx_tail
    then record r { rx_drops = u32 (r.rx_drops + 1) }
    else record r { rxbuf = set r.rxbuf r.rx_head (u8 io); rx_head = next }

unfoldable pub drain_fifo : Ring → List ℕ → Ring
drain_fifo r [] = r
drain_fifo r (io ∷ fifo) = drain_fifo (push r io) fifo

-- `uart_rx_init`; the array keeps what it holds.
unfoldable pub reset_ring : Ring → Ring
reset_ring r = record r { rx_head = 0; rx_tail = 0; rx_drops = 0 }

-- `uart_rx_poll`
unfoldable pub poll : Ring → List ℕ → Ring
unfolding drain_fifo
poll r fifo = drain_fifo r fifo

-- `uart_rx_flush`
unfoldable pub flush : Ring → List ℕ → Ring
unfolding poll
flush r fifo = let q = poll r fifo in record q { rx_tail = q.rx_head }

-- `uart_rx_pending`
unfoldable pub pending : Ring → Bool
pending r = not (r.rx_head == r.rx_tail)

-- `uart_rx_get`: what it returns, and the ring after it.
unfoldable pub get : Ring → Option (ℤ × Ring)
get r = if r.rx_head == r.rx_tail then some (negsuc 0, r) else (do
  c ← get_elem? r.rxbuf r.rx_tail
  some (pos c, record r { rx_tail = rx_mask (r.rx_tail + 1) }))

-- `uart_rx_overruns`
unfoldable pub overruns : Ring → ℕ
overruns r = r.rx_drops
