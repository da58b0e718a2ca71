-- ===== src/Lib.antt =====
-- vekterm, a vector display receiver: the firmware that turns the command words a sender writes
-- on a serial line into the vectors that a Vectrex draws.
--
-- The program is a chain. Bytes arrive on the UART (src/uart_rx.c, src/serial.c); the parser
-- (src/frame.c) gathers four of them into a big-endian word, decodes it (src/protocol.c) and keeps
-- the frame under construction; a finished frame goes to a sink, whose callbacks the receiver
-- (src/vekterm_baremetal.c) or the host tool (src/vekterm.c) supplies.
--
-- What models what:
--   Protocol       src/protocol.h, src/protocol.c. `vt_decode_word` is decode_word, an encoder
--                  `vt_encode_xy` is encode_xy, and so on for every function of the file.
--   Protocol/Message, Protocol/Sums, Protocol/RoundTrip
--                  what a sender can say, as data, and the round trips through words and bytes.
--   Frame/State    `vt_segment`, `vt_frame`, `vt_sink` and `vt_parser`.
--   Frame/Beam, Frame/Ext, Frame/Parser
--                  src/frame.c. `vt_parser_feed` is feed, `vt_parser_feed_word` feed_word,
--                  `vt_parser_init` init, `vt_parser_resync` resync, `dispatch_ext` dispatch_ext.
--   Frame/Valid    the invariant of the parser.
--   Frame/Faults   where the parser can read past an array.
--   Frame/Picture, Frame/Refine
--                  a description of what a list of messages draws that knows no words, buffers or
--                  counts, and the refinement of it by the parser.
--   Frame/Container the containers of extension payloads.
--   Frame/Client   an invariant of the client, through the callbacks.
--   UartRx         src/uart_rx.c. `drain_fifo` is drain_fifo, `uart_rx_get` get, and so on;
--                  UartRx/Queue is the bounded queue that the ring implements.
--   Receiver       src/vekterm_baremetal.c. A callback has its own name, `send_sync_reply`,
--                  `append_u32`, `set_baud` and `handle_splash_buttons` too; the body of the loop
--                  of `main` is turn, of which receive, expire, redraw and ask are the parts.
--                  Receiver/Ready is the invariant of the loop.
--                  Receiver/Picture follows a stream to the calls that draw it, and
--                  Receiver/Silence and Receiver/Expiry a turn on a silent line. Receiver/Session
--                  follows a sender that sends one frame or ping for each reply, from the start
--                  on, and Receiver/Session/Cut one that loses the end of a frame.
--   Font           src/font.c. `vt_draw_string` is draw_text, for any table of glyphs, and
--                  Font/Outline what its strokes are.
--   Host           src/vekterm.c, the tool that decodes a stream on an ordinary computer, and
--                  src/backend_stub.c. A callback such as `app_on_frame` has its own name,
--                  `parse_int`, `run_selftest` and `main` too; in `main` the loop over `argv` is
--                  parse and the loop over the input read_loop. Host/Serial is src/serial.c, with
--                  `vt_serial_open` and `baud_constant`. Host/Seen and Host/Chunks are what the loop
--                  keeps, and Host/Replay a file from its bytes to the lines on stdout.
--   Via            tools/emu/via_vectrex.c, the model of the Vectrex's hardware for the emulator.
--                  `vectrexwrite` is vectrexwrite, and each case of its switch a write_*.
--   Emu            the programs of tools/emu. Of emu_main.c `on_line` (Emu/Capture), `px_add` and
--                  `draw_line` (Emu/Raster), `draw_frame_file` (Emu/Replay), `draw_splash` and
--                  `main` (Emu/Main); of emu_vekterm.c the receive ring (Emu/Wire); gen_frame.c
--                  (Emu/Gen). Emu/Run and Emu/Shim are what the first two do.
--
-- How state and failure are modelled. The parser is a record that the functions pass on. An access
-- outside an array is `none`, so that a theorem which says that something is `some` says also that
-- it reads inside its arrays. Callbacks are functions on the value behind the context pointer, and
-- a NULL callback is `none`. A `uint8_t`, `uint16_t`, `uint32_t` or `uint64_t` is a number with
-- its wrap written out, an `int` an integer. The sums of `int` in src/frame.c are not wrapped: the
-- largest, `y0 + r * y_step` and the displacement, keeps inside 32 bits at every header; an overflow of an `int` in
-- `draw_line` is `none`. Loops are
-- recursion on the steps left or on the bytes to come, and the loop of the host tool on the turns
-- that the system gives it. Two loops take fuel: that over the bytes of the ring 16384 steps, which
-- is more than the ring can hold, and that of `draw_line` the two distances together and one more,
-- which is enough as each step comes nearer to the end.
--
-- What is outside of the program is an argument: the bytes that the UART holds, the readings of the
-- timer and of the buttons, and the texts of the build; for the host tool what `strtol` makes of a
-- text, the constants of <termios.h>, what the system calls return, each `read` among them, and
-- whether a signal has come; for the emulator libpitrex's SCALE_STRENGTH_DIF, `realloc`, the files,
-- and how a terminal cuts what it reads. The calls of the device libraries and of the emulator's
-- sink are recorded in a list, in their order, and so is what the host tool prints: a line is its
-- values, not its text.
--
-- The bounds are those of the default build: 3000 vectors in a frame and 8192 bytes of payload.
--
-- Not modelled: parsers and data that are NULL; the interrupt handler of src/uart_rx.c, which is
-- off by default; the glyphs of src/font_data.i, and the overflow of the positions in src/font.c; of
-- the host tool the texts of the help and of stderr and the sleep between reads; of the drivers of
-- tools/emu the scaling by `double`s, the image files, and the processes, threads and the terminal
-- of emu_vekterm.c; the vendored third_party/libpitrex.
pub mod Base
pub mod Protocol
pub mod Frame
pub mod UartRx
pub mod Receiver
pub mod Font
pub mod Host
pub mod Via
pub mod Emu
