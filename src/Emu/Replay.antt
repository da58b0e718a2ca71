-- ===== src/Emu/Replay.antt =====
-- tools/emu/emu_main.c: `draw_frame_file`, which draws the last frame of a file, in the pieces that
-- `fread` gives. `v_directDraw32` is a call that is recorded.
use mathlib.Core.Path.{subst}
use vekterm.Base.{
  concat, ℕ, ◌≡◌, refl, Bool, true, false, Option, none, some, List, [], ◌∷◌, ◌++◌, map, take, u8,
  shr, ◌>>=◌, if◌then◌else◌, All, ap, sym, ◌∙◌, Option-cases, inl, inr,
}
use vekterm.Base.Int.{pos}
use vekterm.Protocol.Coord.{map_coord}
use vekterm.Protocol.Message.{Message}
use vekterm.Frame.State.{Segment, Frame, Sink, Parser}
use vekterm.Frame.Beam.{init, zero_frame}
use vekterm.Frame.Parser.{feed, with_ctx, deliver, notify}
use vekterm.Frame.Picture.{Shown, blank, view, performs}
use vekterm.Frame.Refine.Client.{IsClient}
use vekterm.Frame.Refine.Stream.{IsPlain, transmit, hears, feed-append, feed-hears, init-Plays}
use vekterm.Receiver.State.{DrawSeg, vectrex_min, vectrex_max, bright_shift}
use vekterm.Receiver.Picture.{newest, newest-append}

-- `g_frame` and `g_have`
pub record Held : Type 0 where
  pub g_frame : Frame
  pub g_have : Bool

-- `on_frame`
unfoldable pub keep_frame : Held → Frame → Held
keep_frame c f = record { g_frame = f; g_have = true }

-- The callbacks that the initializer does not name are NULL, and `on_frame_exit` does nothing.
unfoldable pub frame_sink : Held → Sink Held
frame_sink c = record {
  ctx = c;
  on_frame = some keep_frame;
  on_exit = some (λ c. c);
  on_query = none;
  on_keepalive = none;
}

-- The arguments of `v_directDraw32`. The emulator has the receiver's constants.
unfoldable pub seg_of : Segment → DrawSeg
seg_of s = record {
  x0 = map_coord (pos s.x0) vectrex_min vectrex_max;
  y0 = map_coord (pos s.y0) vectrex_min vectrex_max;
  x1 = map_coord (pos s.x1) vectrex_min vectrex_max;
  y1 = map_coord (pos s.y1) vectrex_min vectrex_max;
  z = u8 (shr s.brightness bright_shift);
}

unfoldable pub feed_chunks : {C : Type 0} → List (List ℕ) → Parser C → Option (Parser C)
feed_chunks [] p = some p
feed_chunks (c ∷ cs) p = do q ← feed p c; feed_chunks cs q

-- The calls that draw; none if no frame came.
unfoldable pub draw_frame_file : List (List ℕ) → Option (List DrawSeg)
draw_frame_file chunks =
    feed_chunks chunks (init (frame_sink (record { g_frame = zero_frame; g_have = false })))
    >>= λ p.
        let c = p.sink.ctx in
        some (if c.g_have then map seg_of (take c.g_frame.count c.g_frame.segments) else [])

feed_chunks-concat :
    {C : Type 0} (chunks : List (List ℕ)) (p : Parser C)
    → feed_chunks chunks p ≡ feed p (concat chunks)
unfolding feed_chunks
feed_chunks-concat [] p = unfold feed in refl
feed_chunks-concat (c ∷ cs) p = elim (Option-cases (feed p c)) [
  | inl fault ↦ rw (feed-append c (concat cs) p, fault) refl
  | inr (q, fed) ↦ rw (feed-append c (concat cs) p, fed) (feed_chunks-concat cs q)
]

-- The newest frame is held.
pub record Keeps (c : Held) (out : List Shown) : Type 0 where
  pub nothing : out ≡ [] → c.g_have ≡ false
  pub frame : (sh : Shown) → newest out ≡ some sh → (c.g_have ≡ true) × (view c.g_frame ≡ sh)

abbrev pub IsKeeping : Sink Held → List Shown → Type 0
IsKeeping s out = (c : Held) × (s ≡ frame_sink c) × Keeps c out

abbrev or_shown : Shown → Option Shown → Shown
or_shown sh none = sh
or_shown sh (some x) = x

not_empty : (xs : List Shown) (x : Shown) → (xs ++ (x ∷ [])) ≡ [] → ⊥
not_empty [] x e = cc
not_empty (y ∷ xs) x e = cc

IsKeeping-IsClient : IsClient IsKeeping
unfolding frame_sink keep_frame
IsKeeping-IsClient = record {
  sees = λ s out f h k v. (
    keep_frame v.0 f,
    ap (λ (t : Sink Held). with_ctx t (deliver t.on_frame t.ctx f)) v.1,
    record {
      nothing = λ e. absurd (not_empty out (view f) e);
      frame = λ sh e. (refl, ap (or_shown sh) (sym (newest-append out (view f)) ∙ e));
    },
  );
  leaves = λ s out v. (v.0, ap (λ (t : Sink Held). with_ctx t (notify t.on_exit t.ctx)) v.1, v.2);
  pings =
      λ s out e v. (v.0, ap (λ (t : Sink Held). with_ctx t (notify t.on_keepalive t.ctx)) v.1, v.2);
}

abbrev nothing_held : Held
nothing_held = record { g_frame = zero_frame; g_have = false }

-- What is to be drawn of the newest frame.
abbrev pub to_draw : Option Shown → List DrawSeg
to_draw none = []
to_draw (some sh) = map seg_of sh.vectors

newest-none : (out : List Shown) → newest out ≡ none → out ≡ []
unfolding newest
newest-none [] e = refl
newest-none (x ∷ []) e = cc
newest-none (x ∷ y ∷ xs) e = let f = newest-none (y ∷ xs) e in cc

drawn-Keeps :
    (c : Held) (out : List Shown)
    → Keeps c out
    → (if c.g_have then map seg_of (take c.g_frame.count c.g_frame.segments) else [])
      ≡ to_draw (newest out)
drawn-Keeps c out k = elim (Option-cases (newest out)) [
  | inl e ↦ rw (k.nothing (newest-none out e), e) refl
  | inr (sh, e) ↦
      let (have, same) = k.frame sh e in
      rw (have, e) (ap (λ (t : Shown). map seg_of t.vectors) same)
]

-- For a file of messages without payloads, whose fields fit their words, read in any pieces, the
-- emulator reads nothing out of bounds and draws the last frame that the messages finish, each of
-- its vectors once and in order, or nothing if they finish none.
pub draw_frame_file-newest :
    (ms : List Message) (chunks : List (List ℕ))
    → All IsPlain ms
    → concat chunks ≡ transmit ms
    → draw_frame_file chunks ≡ some (to_draw (newest (performs ms (blank 0) [])))
unfolding draw_frame_file
draw_frame_file-newest ms chunks plain same =
    let start = init (frame_sink nothing_held) in
    let empty : Keeps nothing_held [] = record {
      nothing = λ e. refl;
      frame = λ sh e. unfold newest in cc;
    } in
    let (fed, played) =
      feed-hears IsKeeping-IsClient ms plain
        (init-Plays IsKeeping-IsClient (frame_sink nothing_held) (nothing_held, refl, empty)) in
    let (c, wired, keeps) = played.sink in
    let ctx : (hears ms start).sink.ctx ≡ c =
      unfold frame_sink in ap (λ (t : Sink Held). t.ctx) wired in
    ap
      (λ o. o >>= λ p. some (
        if p.sink.ctx.g_have
        then map seg_of (take p.sink.ctx.g_frame.count p.sink.ctx.g_frame.segments)
        else []))
      (feed_chunks-concat chunks start ∙ ap (feed start) same ∙ fed)
    ∙ ap some (
        drawn-Keeps (hears ms start).sink.ctx (performs ms (blank 0) [])
          (subst (λ d. Keeps d (performs ms (blank 0) [])) (sym ctx) keeps))
