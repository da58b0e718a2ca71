-- ===== src/Receiver/Session/Cut.antt =====
-- The loss of the end of a frame: the turn runs out of time, and the next frame is drawn whole.
use mathlib.Core.Path.{subst}
use mathlib.Core.List.{append_assoc}
use vekterm.Base.{
  ℕ, ◌+◌, ◌<◌, ◌≡◌, refl, arith, Bool, false, some, List, [], ◌∷◌, ◌++◌, length, concat, All,
  All-append, ap, sym, ◌∙◌, ◌>>=◌,
}
use vekterm.Protocol.Message.{
  Message, colour, move, draw, header, hint, done, leave, ping, container,
}
use vekterm.Frame.State.{Sink, Parser}
use vekterm.Frame.Beam.{resync}
use vekterm.Frame.Parser.{feed}
use vekterm.Frame.Picture.{Picture, Shown, blank, finish, draws, shows, depicts, performs}
use vekterm.Frame.Valid.{IsByte, IsValid}
use vekterm.Frame.Valid.Feed.{feed-IsValid}
use vekterm.Frame.Refine.Client.{Plays}
use vekterm.Frame.Refine.Stream.{IsPlain, transmit, transmit-IsByte, hears, feed-append, feed-hears}
use vekterm.Receiver.State.{rx_spins, Globals}
use vekterm.Receiver.Picture.{Draws, newest, newest-append, receiver-IsClient}
use vekterm.Receiver.Expiry.{is_late, end_turn}
use vekterm.Receiver.Loop.{World, Machine, globals, now, timed, set_activity, turn}
use vekterm.Receiver.Session.Calm.{is_active, Calm, feed-Calm}
use vekterm.Receiver.Session.Bytes.{
  IsDrawing, frame_bytes, done-IsPlain, hears-sink, performs-frame, depicts-frame,
}
use vekterm.Receiver.Session.Hear.{Arrives}
use vekterm.Receiver.Session.State.{IsBetween, IsListening, IsAnswered, change-Plays}
use vekterm.Receiver.Session.Reply.{end_turn-quiet, end_turn-IsBetween, end_turn-IsAnswered}
use vekterm.Receiver.Session.Turn.{waiting_parser, Plays-IsHeld, turn-stream}
use vekterm.Receiver.Session.Drawn.{scene, drawn, drawn-turn}
use vekterm.Receiver.Session.Series.{main_loop}
use vekterm.Receiver.Session.Lapse.{Lapses, receive-Lapsed, feed-Partial}

performs-drawing :
    (body : List Message) (pic : Picture) (out : List Shown)
    → All IsDrawing body
    → performs body pic out ≡ out
unfolding performs draws shows
performs-drawing [] pic out hs = refl
performs-drawing (colour r g b ∷ body) pic out hs = performs-drawing body _ out hs.1
performs-drawing (move x y ∷ body) pic out hs = performs-drawing body _ out hs.1
performs-drawing (draw x y ∷ body) pic out hs = performs-drawing body _ out hs.1
performs-drawing (header n ∷ body) pic out hs = performs-drawing body _ out hs.1
performs-drawing (hint n ∷ body) pic out hs = performs-drawing body _ out hs.1
performs-drawing (done k ∷ body) pic out (h, hs) = cc
performs-drawing (leave ∷ body) pic out (h, hs) = cc
performs-drawing (ping ∷ body) pic out (h, hs) = cc
performs-drawing (container s n ∷ body) pic out (h, hs) = cc

module _ (w : World) where
  -- After the bytes of drawing messages and the start of a word: the parser has done as they say, and
  -- a resync puts it at the start of the next word.
  record HeardCut (m : Machine) (pic : Picture) (shown : List Shown) (body : List Message)
      (start : List ℕ) : Type 0 where
    pub q : Parser Globals
    pub calm : Calm (waiting_parser w m) (transmit body ++ start) q
    pub valid : IsValid q
    pub quiet : is_active q ≡ false
    pub plays :
        Plays (Draws (globals m).calls (globals m).g_peer_v2) (resync q) (depicts body pic) shown

  hears-cut :
      (m : Machine) (pic : Picture) (shown : List Shown) (body : List Message) (start : List ℕ)
      → IsBetween m pic shown
      → All IsPlain body
      → All IsDrawing body
      → length start < 4
      → All IsByte start
      → HeardCut m pic shown body start
  hears-cut m pic shown body start i plain draws short hs =
      let p = waiting_parser w m in
      let made = (globals m).calls in
      let peer = (globals m).g_peer_v2 in
      let plays =
        change-Plays m.parser (record (globals m) { g_activity = false }) shown refl refl refl refl
          i.plays in
      let v = i.valid in
      let valid : IsValid p = ground arith in
      let (g, wired, _, _, _) = plays.sink in
      let (fed, played) = feed-hears (receiver-IsClient made peer) body plain plays in
      let p' = hears body p in
      let part = feed-Partial p' start played.word_start played.no_payload played.word_room short in
      let q = record p' { bytes = part.buffer; nbytes = part.nbytes } in
      let whole : feed p (transmit body ++ start) ≡ some q =
        feed-append (transmit body) start p ∙ ap (λ o. o >>= λ s. feed s start) fed ∙ part.fed in
      let bytes = All-append IsByte (transmit body) start (transmit-IsByte body) hs in
      let still : is_active q ≡ false =
        ap (λ (s : Sink Globals). s.ctx.g_activity) (hears-sink body p draws) in
      let f = played.follows in
      record {
        q = q;
        calm = feed-Calm (transmit body ++ start) p q bytes valid (g, wired) whole still;
        valid = feed-IsValid (transmit body ++ start) p bytes valid whole;
        quiet = still;
        plays =
            subst (λ out. Plays (Draws made peer) (resync q) (depicts body pic) out)
              (performs-drawing body pic shown draws)
              (unfold resync in
                record {
                  follows = ground arith;
                  sink = played.sink;
                  word_start = refl;
                  no_payload = refl;
                  word_room = part.room;
                });
      }

  -- A turn in which the end of a frame does not come.
  pub turn-cut :
      (m : Machine) (pic : Picture) (shown : List Shown) (sh : Shown) (body : List Message)
      (start : List ℕ) (pieces : List (List ℕ))
      → IsBetween m pic shown
      → newest shown ≡ some sh
      → All IsPlain body
      → All IsDrawing body
      → length start < 4
      → All IsByte start
      → concat pieces ≡ transmit body ++ start
      → length pieces + 1 < rx_spins
      → Lapses w (now w m) (m.timer_reads + 1) m.polls pieces
      → is_late w (m.timer_reads + 1 + length pieces + 1) m ≡ false
      → (out : Machine) × (turn w m ≡ some out)
        × IsBetween out (depicts body pic) shown
        × IsAnswered m out sh
        × (out.last_activity ≡ m.last_activity)
  unfolding turn
  turn-cut m pic shown sh body start pieces i new plain draws short hs same few come early =
      let c = hears-cut m pic shown body start i plain draws short hs in
      let p = waiting_parser w m in
      let (held, calls, peer) = Plays-IsHeld w {p = resync c.q} shown sh new c.plays in
      let bytes : All IsByte (concat pieces) =
        subst (All IsByte) (sym same)
          (All-append IsByte (transmit body) start (transmit-IsByte body) hs) in
      let heard =
        receive-Lapsed w (now w m) pieces rx_spins (set_activity (timed w m) false) c.q i.lost few
          bytes i.empty (subst (λ bs. Calm p bs c.q) (sym same) c.calm) c.quiet come in
      let m' = record m {
        parser = c.q;
        ring = heard.ring;
        timer_reads = m.timer_reads + 1 + length pieces + 1;
        polls = m.polls + length pieces;
      } in
      let finished = end_turn-quiet w m' c.quiet early (unfold resync in held.have) in
      (
        end_turn w m',
        ap (λ o. o >>= λ h. some (end_turn w h)) heard.ended,
        end_turn-IsBetween w m' (end_turn w m') shown i.lost c.valid c.plays heard.empty finished,
        end_turn-IsAnswered w m m' (end_turn w m') sh (unfold resync in calls)
            (unfold resync in peer) (unfold resync in held) finished (omega arith),
        finished.active,
      )

  -- A receiver that has shown a frame, and to which only a part of the next one comes before the 50 ms
  -- of its turn are over - some of its drawing messages and up to three bytes of another, the last
  -- activity being less than 30 seconds ago - and to which then, after the reply, a frame comes that
  -- begins with a header: it meets no fault, both turns end, it has drawn the old frame again and then
  -- exactly the new one, in which nothing of the lost frame is left, and listens for the next.
  pub main_loop-cut :
      (m : Machine) (shown : List Shown) (sh : Shown) (lost : List Message) (start : List ℕ)
      (pieces : List (List ℕ)) (n : ℕ) (body : List Message) (mono : Bool) (pieces' : List (List ℕ))
      → IsListening m shown
      → newest shown ≡ some sh
      → All IsPlain lost
      → All IsDrawing lost
      → length start < 4
      → All IsByte start
      → concat pieces ≡ transmit lost ++ start
      → length pieces + 1 < rx_spins
      → Lapses w (now w m) (m.timer_reads + 1) m.polls pieces
      → is_late w (m.timer_reads + 1 + length pieces + 1) m ≡ false
      → All IsPlain (header n ∷ body)
      → All IsDrawing body
      → concat pieces' ≡ frame_bytes (header n ∷ body) mono
      → length pieces' < rx_spins
      → ((mid : Machine)
          → turn w m ≡ some mid
          → Arrives w (now w mid) (mid.timer_reads + 1) mid.polls pieces')
      → let sh' = finish (depicts body (blank n)) mono in
        (out : Machine) × (main_loop w 2 m ≡ some out)
        × (drawn (globals out).calls ≡ drawn (globals m).calls ++ (scene sh ++ scene sh'))
        × IsListening out (shown ++ (sh' ∷ []))
  unfolding main_loop frame_bytes
  main_loop-cut m shown sh lost start pieces n body mono pieces' i new plain draws short hs same few
        come early plain' draws' same' few' next =
      let sh' = finish (depicts body (blank n)) mono in
      let (mid, first, between, again, _) =
        turn-cut m (blank 0) shown sh lost start pieces i new plain draws short hs same few come
          early in
      let left = depicts lost (blank 0) in
      let frame = header n ∷ body in
      let shows' : performs (frame ++ (done mono ∷ [])) left shown ≡ shown ++ (sh' ∷ []) =
        performs-frame frame mono left shown (refl, draws') ∙ unfold depicts draws in refl in
      let (out, second, listening, drew) =
        turn-stream w mid left shown (shown ++ (sh' ∷ [])) frame (done mono) pieces' sh' between
          plain' (refl, draws') (done-IsPlain mono) refl same' few' (next mid first)
          (depicts-frame frame mono left) shows' (newest-append shown sh') in
      (
        out,
        ap (λ o. o >>= main_loop w 1) first ∙ ap (λ o. o >>= main_loop w 0) second,
        drawn-turn mid out sh' drew.answered
            ∙ ap (λ cs. cs ++ scene sh') (drawn-turn m mid sh again)
            ∙ append_assoc (drawn (globals m).calls) (scene sh) (scene sh'),
        listening,
      )
