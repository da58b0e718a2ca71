-- ===== src/Emu/Wire.antt =====
-- tools/emu/emu_vekterm.c: what stands for the mini-UART's receive ring when the receiver runs on an
-- ordinary computer. The bytes come from a pseudo terminal, in the pieces that its `read` gives.
use vekterm.Base.{
  ℕ, ◌+◌, ◌==◌, ◌%◌, Bool, not, Option, some, List, [], ◌∷◌, if◌then◌else◌, ◌>>=◌, u8, get_elem?,
  set,
}
use vekterm.Base.Int.{ℤ, pos, negsuc}
use vekterm.UartRx.Queue.{
  Op, restart, fetch, test, count, polling, flushing, Answer, silence, byte, ready, dropped,
}

-- `RB`
abbrev pub rb_size : ℕ
rb_size = 65536

-- `rb`, `rh` and `rt`
pub record Wire : Type 0 where
  pub rb : List ℕ
  pub rh : ℕ
  pub rt : ℕ

unfoldable pub uart_rx_init : Wire → Wire
uart_rx_init w = record w { rh = 0; rt = 0 }

-- The body of the loop over `buf`, an array of `uint8_t`.
unfoldable pub store : Wire → ℕ → Wire
store w b =
    let nx = (w.rh + 1) % rb_size in
    if nx == w.rt then w else record w { rb = set w.rb w.rh (u8 b); rh = nx }

-- That loop, over the bytes of one `read`.
unfoldable pub store_all : Wire → List ℕ → Wire
store_all w [] = w
store_all w (b ∷ buf) = store_all (store w b) buf

-- `uart_rx_poll`, with the bytes of each `read` until one finds nothing.
unfoldable pub uart_rx_poll : Wire → List (List ℕ) → Wire
uart_rx_poll w [] = w
uart_rx_poll w (buf ∷ reads) = uart_rx_poll (store_all w buf) reads

unfoldable pub uart_rx_flush : Wire → List (List ℕ) → Wire
unfolding uart_rx_poll
uart_rx_flush w reads = let v = uart_rx_poll w reads in record v { rt = v.rh }

unfoldable pub uart_rx_pending : Wire → Bool
uart_rx_pending w = not (w.rh == w.rt)

unfoldable pub uart_rx_get : Wire → Option (ℤ × Wire)
uart_rx_get w =
    if w.rh == w.rt
    then some (negsuc 0, w)
    else (do c ← get_elem? w.rb w.rt; some (pos c, record w { rt = (w.rt + 1) % rb_size }))

unfoldable pub uart_rx_overruns : Wire → ℕ
uart_rx_overruns w = 0

-- The operations of the receive ring by this code; `reads` says how the terminal cuts what it has
-- into reads.
module _ (reads : List ℕ → List (List ℕ)) where
  unfoldable pub emulate : Wire → Op → Option (Answer × Wire)
  emulate w restart = some (silence, uart_rx_init w)
  emulate w fetch = do a ← uart_rx_get w; some (byte a.0, a.1)
  emulate w test = some (ready (uart_rx_pending w), w)
  emulate w count = some (dropped (uart_rx_overruns w), w)
  emulate w (polling fifo) = some (silence, uart_rx_poll w (reads fifo))
  emulate w (flushing fifo) = some (silence, uart_rx_flush w (reads fifo))

  unfoldable pub emulates : Wire → List Op → Option (List Answer)
  emulates w [] = some []
  emulates w (o ∷ ops) = do a ← emulate w o; outs ← emulates a.1 ops; some (a.0 ∷ outs)
