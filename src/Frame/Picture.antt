-- ===== src/Frame/Picture.antt =====
-- What a stream of messages draws, apart from buffers, caps and the wire: the specification that
-- the parser of src/frame.c implements.
use vekterm.Base.{ℕ, Bool, List, [], ◌∷◌, ◌++◌, length, ltb, take}
use Prim.Native.Nat.{min, max}
use vekterm.Protocol.Hello.{max_pipeline}
use vekterm.Protocol.Coord.{dvg_res_max}
use vekterm.Protocol.Message.{
  Message, colour, move, draw, header, hint, done, leave, ping, container,
}
use vekterm.Frame.State.{Segment, Frame, dev_center}

-- The pen, the brightness in force and every vector drawn so far, in order.
pub record Picture : Type 0 where
  pub pen_x : ℕ
  pub pen_y : ℕ
  pub level : ℕ
  pub strokes : List Segment
  pub travel : ℕ

-- What is shown of a finished frame.
pub record Shown : Type 0 where
  pub vectors : List Segment
  pub travel : ℕ
  pub monochrome : Bool
  pub overflow : Bool

abbrev pub blank : ℕ → Picture
blank n = record { pen_x = dev_center; pen_y = dev_center; level = 0; strokes = []; travel = n }

abbrev pub grid : ℕ → ℕ
grid v = min v dvg_res_max

abbrev pub stroke : Picture → ℕ → ℕ → Segment
stroke pic x y = record {
  x0 = pic.pen_x;
  y0 = pic.pen_y;
  x1 = grid x;
  y1 = grid y;
  brightness = pic.level;
}

-- The picture after a message. A container is not drawn here.
unfoldable pub draws : Message → Picture → Picture
draws (colour r g b) pic = record pic { level = max r (max g b) }
draws (move x y) pic = record pic { pen_x = grid x; pen_y = grid y }
draws (draw x y) pic = record pic {
  pen_x = grid x;
  pen_y = grid y;
  strokes = pic.strokes ++ (stroke pic x y ∷ []);
}
draws (header n) pic = blank n
draws (hint n) pic = pic
draws (done m) pic = blank 0
draws leave pic = pic
draws ping pic = pic
draws (container s n) pic = pic

-- A finished picture keeps the first `max_pipeline` vectors.
abbrev pub finish : Picture → Bool → Shown
finish pic m = record {
  vectors = take max_pipeline pic.strokes;
  travel = pic.travel;
  monochrome = m;
  overflow = ltb max_pipeline (length pic.strokes);
}

-- The frames shown once a message has come.
unfoldable pub shows : Message → Picture → List Shown → List Shown
shows (done m) pic out = out ++ (finish pic m ∷ [])
shows _ pic out = out

-- The frames that a whole stream of messages shows.
unfoldable pub performs : List Message → Picture → List Shown → List Shown
performs [] pic out = out
performs (m ∷ ms) pic out = performs ms (draws m pic) (shows m pic out)

-- The picture after a whole stream of messages.
unfoldable pub depicts : List Message → Picture → Picture
depicts [] pic = pic
depicts (m ∷ ms) pic = depicts ms (draws m pic)

-- What a client sees of a frame: the vectors in use.
abbrev pub view : Frame → Shown
view f = record {
  vectors = take f.count f.segments;
  travel = f.total_length;
  monochrome = f.monochrome;
  overflow = f.overflow;
}
