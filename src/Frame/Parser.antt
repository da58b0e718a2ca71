-- ===== src/Frame/Parser.antt =====
-- src/frame.c, `vt_parser_feed_word` and `vt_parser_feed`. The parser pointer is not NULL.
use vekterm.Base.{
  ℕ, ◌+◌, ◌-◌, ◌==◌, ◌&&◌, Bool, true, false, not, Option, none, some, List, [], ◌∷◌, ltb, leb,
  if◌then◌else◌, ◌>>=◌, u64, set,
}
use vekterm.Protocol.Word.{
  Flag, Command, complete, rgb, xy, quality, frame, cmd, ext, exit, word_bytes, decode_word,
  unpack_be, ext_length, ext_subtype,
}
use vekterm.Protocol.Hello.{ext_max, is_hello, is_keepalive}
use vekterm.Protocol.Coord.{brightness_from_rgb}
use vekterm.Frame.State.{Frame, Sink, Parser}
use vekterm.Frame.Beam.{clamp_dev_coord, reset_frame, emit_lit}
use vekterm.Frame.Ext.Dispatch.{dispatch_ext}

-- The call of a callback that may be NULL.
abbrev pub notify : {C : Type 0} → Option (C → C) → C → C
notify none c = c
notify (some f) c = f c

abbrev pub deliver : {C : Type 0} → Option (C → Frame → C) → C → Frame → C
deliver none c f = c
deliver (some g) c f = g c f

abbrev pub is_some {ℓ} : {A : Type ℓ} → Option A → Bool
is_some none = false
is_some (some a) = true

abbrev pub set_header : Frame → ℕ → Frame
set_header f n = record f { total_length = n }

abbrev pub set_monochrome : Frame → Bool → Frame
set_monochrome f m = record f { monochrome = m }

module _ {C : Type 0} where
  abbrev pub with_ctx : Sink C → C → Sink C
  with_ctx s c = record s { ctx = c }

  -- VT_FLAG_FRAME
  unfoldable pub on_header : Parser C → ℕ → Parser C
  on_header p n = let q = reset_frame p in record q { frame = set_header q.frame n }

  -- VT_FLAG_XY
  unfoldable pub on_xy : Parser C → Command → Parser C
  on_xy p c =
      let x = clamp_dev_coord c.x in
      let y = clamp_dev_coord c.y in
      if c.blank then record p { cur_x = x; cur_y = y; have_pos = true } else emit_lit p x y

  -- VT_FLAG_COMPLETE
  unfoldable pub on_complete : Parser C → Bool → Parser C
  on_complete p m =
      let f = set_monochrome p.frame m in
      reset_frame (record p {
        frame = f;
        frames_done = u64 (p.frames_done + 1);
        sink = with_ctx p.sink (deliver p.sink.on_frame p.sink.ctx f);
      })

  -- VT_FLAG_EXIT
  unfoldable pub on_exit_word : Parser C → Parser C
  on_exit_word p = record p {
    session_over = true;
    sink = with_ctx p.sink (notify p.sink.on_exit p.sink.ctx);
  }

  -- What the header of a container sets.
  unfoldable pub begin_ext : Parser C → ℕ → Parser C
  begin_ext p word =
      let length = ext_length word in
      record p {
        ext_subtype = ext_subtype word;
        ext_len = 0;
        ext_overflow = ltb ext_max length;
        ext_remaining = length;
      }

  -- VT_FLAG_EXT
  unfoldable pub on_ext : Parser C → ℕ → Option (Parser C)
  on_ext p word =
      let q = begin_ext p word in if ext_length word == 0 then dispatch_ext q else some q

  -- VT_FLAG_CMD
  unfoldable pub on_cmd : Parser C → ℕ → Parser C
  on_cmd p word =
      let s = p.sink in
      if is_hello word && is_some s.on_query
      then record p { sink = with_ctx s (notify s.on_query s.ctx) }
      else (if is_keepalive word && is_some s.on_keepalive
          then record p { sink = with_ctx s (notify s.on_keepalive s.ctx) }
          else p)

  -- The `switch` of `vt_parser_feed_word`.
  unfoldable pub dispatch : Flag → Command → ℕ → Parser C → Option (Parser C)
  dispatch frame c word p = some (on_header p c.value)
  dispatch rgb c word p = some (record p { brightness = brightness_from_rgb c.r c.g c.b })
  dispatch xy c word p = some (on_xy p c)
  dispatch complete c word p = some (on_complete p c.monochrome)
  dispatch exit c word p = some (on_exit_word p)
  dispatch ext c word p = on_ext p word
  dispatch cmd c word p = some (on_cmd p word)
  dispatch quality c word p = some p

  abbrev pub count_word : Parser C → Parser C
  count_word p = record p { words_seen = u64 (p.words_seen + 1) }

  unfoldable pub feed_word : Parser C → ℕ → Option (Parser C)
  feed_word p word = let c = decode_word word in dispatch c.flag c word (count_word p)

  -- A byte of a payload is kept if there is room, and counted.
  unfoldable pub store_payload : Parser C → ℕ → Parser C
  store_payload p byte =
      let store = not p.ext_overflow && ltb p.ext_len ext_max in
      record p {
        ext_buf = if store then set p.ext_buf p.ext_len byte else p.ext_buf;
        ext_len = if store then p.ext_len + 1 else p.ext_len;
        ext_remaining = p.ext_remaining - 1;
      }

  unfoldable pub feed_payload : Parser C → ℕ → Option (Parser C)
  feed_payload p byte =
      let q = store_payload p byte in if q.ext_remaining == 0 then dispatch_ext q else some q

  -- A byte of a word, stored at `nbytes`, which is no larger than the array's last index.
  unfoldable pub gather : Parser C → ℕ → ℕ → Option (Parser C)
  gather p nbytes byte =
      let bytes = set p.bytes nbytes byte in
      if nbytes + 1 == word_bytes
      then (do word ← unpack_be bytes; feed_word (record p { bytes = bytes; nbytes = 0 }) word)
      else some (record p { bytes = bytes; nbytes = nbytes + 1 })

  -- The body of the loop of `vt_parser_feed`.
  unfoldable pub feed_byte : Parser C → ℕ → Option (Parser C)
  feed_byte p byte =
      if ltb 0 p.ext_remaining
      then feed_payload p byte
      else gather p (if leb word_bytes p.nbytes then 0 else p.nbytes) byte

  unfoldable pub feed : Parser C → List ℕ → Option (Parser C)
  feed p [] = some p
  feed p (byte ∷ rest) = do q ← feed_byte p byte; feed q rest
