-- ===== src/Receiver/Callbacks.antt =====
-- src/vekterm_baremetal.c: the callbacks of the sink, and the drawing of the held frame. The context
-- pointer is NULL, and what the callbacks change are the globals.
use vekterm.Base.{ℕ, ◌+◌, true, some, List, [], ◌∷◌, map, take, set, u8, shr}
use vekterm.Base.Int.{ℤ, pos, to_int16}
use vekterm.Protocol.Hello.{hello_descriptor}
use vekterm.Protocol.Coord.{map_coord}
use vekterm.Frame.State.{Segment, Frame, Sink}
use vekterm.Receiver.State.{
  vectrex_min, vectrex_max, bright_shift, DrawSeg, write, direct_draw, Globals, emit,
}

-- `(int16_t)vt_map_coord(v, VT_VECTREX_MIN, VT_VECTREX_MAX)`
abbrev pub to_vectrex : ℕ → ℤ
to_vectrex v = to_int16 (map_coord (pos v) vectrex_min vectrex_max)

unfoldable pub draw_of : Segment → DrawSeg
draw_of s = record {
  x0 = to_vectrex s.x0;
  y0 = to_vectrex s.y0;
  x1 = to_vectrex s.x1;
  y1 = to_vectrex s.y1;
  z = u8 (shr s.brightness bright_shift);
}

-- The loop of `on_frame` from index `i`, over the vectors that are left.
unfoldable pub copy_segments : ℕ → List Segment → List DrawSeg → List DrawSeg
copy_segments i [] draw = draw
copy_segments i (s ∷ left) draw = copy_segments (i + 1) left (set draw i (draw_of s))

-- The frame's `count` is at most the size of its array.
unfoldable pub on_frame : Globals → Frame → Globals
on_frame g f = record g {
  g_draw = copy_segments 0 (take f.count f.segments) g.g_draw;
  g_draw_count = f.count;
  g_overflow = f.overflow;
  g_have_frame = true;
  g_activity = true;
}

unfoldable pub on_exit : Globals → Globals
on_exit g = g

unfoldable pub on_keepalive : Globals → Globals
on_keepalive g = record g { g_activity = true }

unfoldable pub on_query : Globals → Globals
on_query g = record (emit g (map write hello_descriptor)) { g_peer_v2 = true }

-- The sink that `main` sets up.
unfoldable pub receiver_sink : Globals → Sink Globals
receiver_sink g = record {
  ctx = g;
  on_frame = some on_frame;
  on_exit = some on_exit;
  on_query = some on_query;
  on_keepalive = some on_keepalive;
}

unfoldable pub draw_active_frame : Globals → Globals
draw_active_frame g = emit g (map direct_draw (take g.g_draw_count g.g_draw))
