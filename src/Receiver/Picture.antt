-- ===== src/Receiver/Picture.antt =====
-- From the bytes of a stream to the calls that draw it, through the parser and the callbacks.
use mathlib.Core.Path.{subst}
use vekterm.Base.{
  ◌+◌, ◌≤◌, ◌≡◌, refl, arith, Bool, true, Option, none, some, List, [], ◌∷◌, ◌++◌, map, length,
  length-take, take, All, ap, sym, ◌∙◌,
}
use vekterm.Protocol.Message.{Message}
use vekterm.Frame.State.{Frame, Sink, Parser}
use vekterm.Frame.Beam.{init}
use vekterm.Frame.Parser.{with_ctx, deliver, notify, feed}
use vekterm.Frame.Picture.{Shown, blank, view, performs}
use vekterm.Frame.Refine.Client.{IsClient}
use vekterm.Frame.Refine.Stream.{IsPlain, transmit, hears, feed-hears, init-Plays}
use vekterm.Receiver.State.{Call, direct_draw, Globals, emit}
use vekterm.Receiver.Callbacks.{
  draw_of, copy_segments, on_frame, on_exit, on_keepalive, receiver_sink, draw_active_frame,
}
use vekterm.Receiver.Draw.{take-copy_segments, length-copy_segments}

-- The last of the frames.
unfoldable pub newest : List Shown → Option Shown
newest [] = none
newest (sh ∷ []) = some sh
newest (_ ∷ sh ∷ shs) = newest (sh ∷ shs)

pub newest-append : (xs : List Shown) (x : Shown) → newest (xs ++ (x ∷ [])) ≡ some x
unfolding newest
newest-append [] x = refl
newest-append (y ∷ []) x = refl
newest-append (y ∷ z ∷ xs) x = newest-append (z ∷ xs) x

abbrev or_blank : Shown → Option Shown → Shown
or_blank sh none = sh
or_blank sh (some x) = x

-- The receiver holds this frame, its vectors mapped.
pub record IsHeld (g : Globals) (sh : Shown) : Type 0 where
  pub have : g.g_have_frame ≡ true
  pub overflow : g.g_overflow ≡ sh.overflow
  pub count : g.g_draw_count ≡ length sh.vectors
  pub vectors : take g.g_draw_count g.g_draw ≡ map draw_of sh.vectors

-- What the receiver holds after these frames: the newest.
pub record IsShowing (g : Globals) (out : List Shown) : Type 0 where
  pub room : length g.g_draw ≡ 3000
  pub held : (sh : Shown) → newest out ≡ some sh → IsHeld g sh

-- What a change of the globals leaves of the held frame.
pub IsShowing-kept :
    {g h : Globals} (out : List Shown)
    → h.g_draw ≡ g.g_draw
    → h.g_draw_count ≡ g.g_draw_count
    → h.g_have_frame ≡ g.g_have_frame
    → h.g_overflow ≡ g.g_overflow
    → IsShowing g out
    → IsShowing h out
IsShowing-kept out draw count have over v = record {
  room = ap length draw ∙ v.room;
  held = λ sh e.
      let i = v.held sh e in
      record {
        have = have ∙ i.have;
        overflow = over ∙ i.overflow;
        count = count ∙ i.count;
        vectors = (λ k. take (count k) (draw k)) ∙ i.vectors;
      };
}

-- The sink is the receiver's, which holds the newest of these frames and has made these calls, and
-- whose sender has or has not negotiated.
abbrev pub Draws : List Call → Bool → Sink Globals → List Shown → Type 0
Draws made peer s out =
    (g : Globals) × (s ≡ receiver_sink g)
    × IsShowing g out
    × (g.calls ≡ made)
    × (g.g_peer_v2 ≡ peer)

on_frame-IsShowing :
    (g : Globals) (out : List Shown) (f : Frame)
    → f.count ≤ length f.segments
    → f.count ≤ 3000
    → IsShowing g out
    → IsShowing (on_frame g f) (out ++ (view f ∷ []))
unfolding on_frame
on_frame-IsShowing g out f h k v =
    let segs = take f.count f.segments in
    let count = length-take f.count f.segments h in
    let copied = take-copy_segments segs 0 g.g_draw (omega (arith, count, v.room)) in
    let whole : f.count ≡ 0 + length segs = omega (arith, count) in
    record {
      room = length-copy_segments 0 segs g.g_draw ∙ v.room;
      held = λ sh e.
          let same : view f ≡ sh = ap (or_blank sh) (sym (newest-append out (view f)) ∙ e) in
          subst (IsHeld _) same (record {
            have = refl;
            overflow = refl;
            count = sym count;
            vectors = ap (λ n. take n (copy_segments 0 segs g.g_draw)) whole ∙ copied;
          });
    }

pub receiver-IsClient : (made : List Call) (peer : Bool) → IsClient (Draws made peer)
unfolding receiver_sink on_frame on_exit on_keepalive
receiver-IsClient made peer = record {
  sees = λ s out f h k v. (
    on_frame v.0 f,
    ap (λ (t : Sink Globals). with_ctx t (deliver t.on_frame t.ctx f)) v.1,
    on_frame-IsShowing v.0 out f h k v.2,
    v.3,
    v.4,
  );
  leaves = λ s out v.
      (v.0, ap (λ (t : Sink Globals). with_ctx t (notify t.on_exit t.ctx)) v.1, v.2, v.3, v.4);
  pings = λ s out e v. (
    on_keepalive v.0,
    ap (λ (t : Sink Globals). with_ctx t (notify t.on_keepalive t.ctx)) v.1,
    IsShowing-kept out refl refl refl refl v.2,
    v.3,
    v.4,
  );
}

pub none_held : (g : Globals) → length g.g_draw ≡ 3000 → IsShowing g []
unfolding newest
none_held g room = record { room = room; held = λ sh e. cc }

-- For messages without payloads whose fields fit their words, and which finish a frame: a receiver
-- whose draw list has its size, when its fresh parser is fed their bytes, reads nothing out of bounds
-- and holds the last frame that they finish: a redraw then makes the calls of that frame's vectors,
-- in order, each mapped, and it has kept whether vectors were dropped.
pub feed-draw_active_frame :
    (g : Globals) (ms : List Message) (sh : Shown)
    → length g.g_draw ≡ 3000
    → All IsPlain ms
    → newest (performs ms (blank 0) []) ≡ some sh
    → (p : Parser Globals) × (feed (init (receiver_sink g)) (transmit ms) ≡ some p)
      × (p.sink.ctx.g_have_frame ≡ true)
      × (p.sink.ctx.g_overflow ≡ sh.overflow)
      × (draw_active_frame p.sink.ctx ≡ emit p.sink.ctx (map direct_draw (map draw_of sh.vectors)))
unfolding draw_active_frame
feed-draw_active_frame g ms sh room plain last =
    let (fed, played) = feed-hears (receiver-IsClient g.calls g.g_peer_v2) ms plain (
      init-Plays (receiver-IsClient g.calls g.g_peer_v2) (receiver_sink g)
        (g, refl, none_held g room, refl, refl)) in
    let (g', wired, showing, made, peer) = played.sink in
    let ctx : (hears ms (init (receiver_sink g))).sink.ctx ≡ g' =
      unfold receiver_sink in ap (λ (t : Sink Globals). t.ctx) wired in
    let held = subst (λ c. IsHeld c sh) (sym ctx) (showing.held sh last) in
    (
      hears ms (init (receiver_sink g)),
      fed,
      held.have,
      held.overflow,
      ap (λ ds. emit (hears ms (init (receiver_sink g))).sink.ctx (map direct_draw ds))
          held.vectors,
    )
