-- ===== src/Frame/Refine/Client.antt =====
-- One message, as a word: the parser does what the message says, and its client sees what is shown.
use vekterm.Base.{
  ℕ, ◌&&◌, if◌then◌else◌, ◌≤◌, ◌≡◌, refl, arith, Bool, true, false, some, none, List, [], ◌∷◌, ◌++◌,
  length, ap, sym, ◌∙◌,
}
use mathlib.Core.Path.{subst}
use vekterm.Protocol.Hello.{is_keepalive, max_pipeline}
use vekterm.Protocol.Coord.{brightness_from_rgb}
use vekterm.Protocol.Message.{
  Message, colour, move, draw, header, hint, done, leave, ping, container, encode, Fits, meaning,
}
use vekterm.Protocol.RoundTrip.{decode_word-encode, is_keepalive-encode}
use vekterm.Frame.State.{Frame, Sink, Parser}
use vekterm.Frame.Beam.{clamp_dev_coord, reset_frame, emit_lit}
use vekterm.Frame.Parser.{
  on_header, on_xy, on_complete, on_exit_word, on_cmd, set_monochrome, with_ctx, notify, deliver,
  is_some, count_word, dispatch, feed_word,
}
use vekterm.Frame.Picture.{Picture, Shown, blank, finish, draws, shows, view}
use vekterm.Frame.Refine.Word.{
  Follows, brightness-eq-max, clamp-eq-grid, reset_frame-Follows, on_header-Follows,
  emit_lit-Follows, on_move-Follows,
}
use vekterm.Frame.Refine.Store.{Holds}

-- A client that keeps what it sees of each finished frame.
abbrev pub recorder : List Shown → Sink (List Shown)
recorder out = record {
  ctx = out;
  on_frame = some (λ c f. c ++ (view f ∷ []));
  on_exit = none;
  on_query = none;
  on_keepalive = none;
}

-- What it takes to be a client that has seen these frames: `W` is what holds of its sink then. It
-- is shown each finished frame, and the end of a session and a ping change nothing of what it saw.
pub record IsClient {C : Type 0} (W : Sink C → List Shown → Type 0) : Type 0 where
  pub sees :
      (s : Sink C) (out : List Shown) (f : Frame)
      → f.count ≤ length f.segments
      → f.count ≤ max_pipeline
      → W s out
      → W (with_ctx s (deliver s.on_frame s.ctx f)) (out ++ (view f ∷ []))
  pub leaves :
      (s : Sink C) (out : List Shown) → W s out → W (with_ctx s (notify s.on_exit s.ctx)) out
  pub pings :
      (s : Sink C) (out : List Shown)
      → is_some s.on_keepalive ≡ true
      → W s out
      → W (with_ctx s (notify s.on_keepalive s.ctx)) out

abbrev pub IsRecorder : Sink (List Shown) → List Shown → Type 0
IsRecorder s out = s ≡ recorder out

pub IsRecorder-IsClient : IsClient IsRecorder
IsRecorder-IsClient = record {
  sees = λ s out f h k e. ap (λ (t : Sink (List Shown)). with_ctx t (deliver t.on_frame t.ctx f)) e;
  leaves = λ s out e. ap (λ (t : Sink (List Shown)). with_ctx t (notify t.on_exit t.ctx)) e;
  pings = λ s out h e. ap (λ (t : Sink (List Shown)). with_ctx t (notify t.on_keepalive t.ctx)) e;
}

-- A parser between two words that follows the picture and whose client has seen `out`.
pub record Plays {C : Type 0} (W : Sink C → List Shown → Type 0) (p : Parser C) (pic : Picture)
    (out : List Shown) : Type 0 where
  pub follows : Follows p pic
  pub sink : W p.sink out
  pub word_start : p.nbytes ≡ 0
  pub no_payload : p.ext_remaining ≡ 0
  pub word_room : length p.bytes ≡ 4

view-finish :
    (f : Frame) (pic : Picture) (m : Bool)
    → Holds f pic.strokes
    → f.total_length ≡ pic.travel
    → view (set_monochrome f m) ≡ finish pic m
view-finish f pic m h travel = ground arith

abbrev pub is_plain : Message → Bool
is_plain (container s n) = false
is_plain _ = true

-- A message is read as the parser reads its word.
pub feed_word-encode :
    {C : Type 0} (p : Parser C) (m : Message)
    → Fits m
    → feed_word p (encode m) ≡ dispatch (meaning m).flag (meaning m) (encode m) (count_word p)
unfolding feed_word
feed_word-encode p m h = rw (decode_word-encode m h)

-- What a message does to the parser, container excepted.
unfoldable pub obeys : {C : Type 0} → Message → Parser C → Parser C
obeys (colour r g b) p = record p { brightness = brightness_from_rgb r g b }
obeys (move x y) p = record p {
  cur_x = clamp_dev_coord x;
  cur_y = clamp_dev_coord y;
  have_pos = true;
}
obeys (draw x y) p = emit_lit p (clamp_dev_coord x) (clamp_dev_coord y)
obeys (header n) p = on_header p n
obeys (hint n) p = p
obeys (done m) p = on_complete p m
obeys leave p = on_exit_word p
obeys ping p = on_cmd p (encode ping)
obeys (container s n) p = p

pub dispatch-meaning :
    {C : Type 0} (m : Message) (p : Parser C)
    → is_plain m ≡ true
    → dispatch (meaning m).flag (meaning m) (encode m) p ≡ some (obeys m p)
unfolding dispatch meaning obeys on_xy
dispatch-meaning (colour r g b) p h = refl
dispatch-meaning (move x y) p h = refl
dispatch-meaning (draw x y) p h = refl
dispatch-meaning (header n) p h = refl
dispatch-meaning (hint n) p h = refl
dispatch-meaning (done m) p h = refl
dispatch-meaning leave p h = refl
dispatch-meaning ping p h = refl
dispatch-meaning (container s n) p h = cc

on_colour-Follows :
    {C : Type 0} {p : Parser C} {pic : Picture} (r g b : ℕ)
    → Follows p pic
    → Follows (record p { brightness = brightness_from_rgb r g b }) (draws (colour r g b) pic)
unfolding draws
on_colour-Follows r g b f = record {
  buffer = f.buffer;
  pen_x = f.pen_x;
  pen_y = f.pen_y;
  home = f.home;
  in_x = f.in_x;
  in_y = f.in_y;
  level = brightness-eq-max r g b;
  travel = f.travel;
}

module _ {C : Type 0} (W : Sink C → List Shown → Type 0) where
  pub count_word-Plays :
      {p : Parser C} {pic : Picture} {out : List Shown}
      → Plays W p pic out
      → Plays W (count_word p) pic out
  count_word-Plays v = ground arith

  -- The fields that no command word but a container's changes.
  Plays-of :
      {p q : Parser C} {pic pic' : Picture} {out : List Shown}
      → Plays W p pic out
      → Follows q pic'
      → q.sink ≡ p.sink
      → q.nbytes ≡ p.nbytes
      → q.ext_remaining ≡ p.ext_remaining
      → q.bytes ≡ p.bytes
      → Plays W q pic' out
  Plays-of {p} {q} {pic} {pic'} {out} v f s n r b = record {
    follows = f;
    sink = subst (λ (t : Sink C). W t out) (sym s) v.sink;
    word_start = n ∙ v.word_start;
    no_payload = r ∙ v.no_payload;
    word_room = ap length b ∙ v.word_room;
  }

pub on_cmd-ping :
    {C : Type 0} (p : Parser C)
    → on_cmd p (encode ping) ≡ (
        if is_some p.sink.on_keepalive
        then record p { sink = with_ctx p.sink (notify p.sink.on_keepalive p.sink.ctx) }
        else p)
unfolding on_cmd
on_cmd-ping p =
    let (kind, other) = is_keepalive-encode ping tt in
    let s = p.sink in
    let asked = record p { sink = with_ctx s (notify s.on_query s.ctx) } in
    let held = record p { sink = with_ctx s (notify s.on_keepalive s.ctx) } in
    ap
      (λ b.
        if b && is_some s.on_query
        then asked
        else (if is_keepalive (encode ping) && is_some s.on_keepalive then held else p))
      other
    ∙ ap (λ b. if b && is_some s.on_keepalive then held else p) kind

module _ {C : Type 0} {W : Sink C → List Shown → Type 0} (client : IsClient W) where
  on_complete-Plays :
      {p : Parser C} {pic : Picture} {out : List Shown} (m : Bool)
      → Plays W p pic out
      → Plays W (on_complete p m) (blank 0) (out ++ (finish pic m ∷ []))
  unfolding on_complete
  on_complete-Plays {p} {pic} {out} m v =
      let f : Frame = set_monochrome p.frame m in
      let held = v.follows.buffer in
      let full : f.count ≤ length f.segments = omega (arith, held.count, held.room) in
      record {
        follows = reset_frame-Follows _ held.room;
        sink =
            unfold reset_frame in
            subst
              (λ w. W (with_ctx p.sink (deliver p.sink.on_frame p.sink.ctx f)) (out ++ (w ∷ [])))
              (view-finish p.frame pic m held v.follows.travel)
              (client.sees p.sink out f full (omega (arith, held.count)) v.sink);
        word_start = unfold reset_frame in v.word_start;
        no_payload = unfold reset_frame in v.no_payload;
        word_room = unfold reset_frame in v.word_room;
      }

  on_exit_word-Plays :
      {p : Parser C} {pic : Picture} {out : List Shown}
      → Plays W p pic out
      → Plays W (on_exit_word p) pic out
  unfolding on_exit_word
  on_exit_word-Plays {p} {pic} {out} v =
      let f = v.follows in
      record {
        follows = ground arith;
        sink = client.leaves p.sink out v.sink;
        word_start = v.word_start;
        no_payload = v.no_payload;
        word_room = v.word_room;
      }

  if-Plays :
      {pic : Picture} {out : List Shown} (b : Bool) (x y : Parser C)
      → (b ≡ true → Plays W x pic out)
      → Plays W y pic out
      → Plays W (if b then x else y) pic out
  if-Plays true x y v u = v refl
  if-Plays false x y v u = u

  on_ping-Plays :
      {p : Parser C} {pic : Picture} {out : List Shown}
      → Plays W p pic out
      → Plays W (on_cmd p (encode ping)) pic out
  on_ping-Plays {p} {pic} {out} v =
      let f = v.follows in
      let p' : Parser C = record p {
        sink = with_ctx p.sink (notify p.sink.on_keepalive p.sink.ctx);
      } in
      subst (λ q. Plays W q pic out) (sym (on_cmd-ping p))
        (if-Plays (is_some p.sink.on_keepalive) p' p
          (λ heard. record {
            follows = ground arith;
            sink = client.pings p.sink out heard v.sink;
            word_start = v.word_start;
            no_payload = v.no_payload;
            word_room = v.word_room;
          })
          v)

  pub obeys-Plays :
      (m : Message) {p : Parser C} {pic : Picture} {out : List Shown}
      → is_plain m ≡ true
      → Plays W p pic out
      → Plays W (obeys m p) (draws m pic) (shows m pic out)
  unfolding obeys draws shows
  obeys-Plays (colour r g b) h v =
      Plays-of W v (on_colour-Follows r g b v.follows) refl refl refl refl
  obeys-Plays (move x y) {p} h v =
      rw (clamp-eq-grid x, clamp-eq-grid y)
        (Plays-of W v (on_move-Follows x y v.follows) refl refl refl refl)
  obeys-Plays (draw x y) {p} h v =
      rw (clamp-eq-grid x, clamp-eq-grid y)
        (unfold emit_lit in Plays-of W v (emit_lit-Follows x y v.follows) refl refl refl refl)
  obeys-Plays (header n) {p} h v =
      unfold on_header reset_frame in
      Plays-of W v (on_header-Follows p n v.follows.buffer.room) refl refl refl refl
  obeys-Plays (hint n) h v = v
  obeys-Plays (done m) h v = on_complete-Plays m v
  obeys-Plays leave h v = on_exit_word-Plays v
  obeys-Plays ping h v = on_ping-Plays v
  obeys-Plays (container s n) h v = cc
