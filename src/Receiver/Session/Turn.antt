-- ===== src/Receiver/Session/Turn.antt =====
-- One frame or ping and one reply: the turn of the receiver's loop in which it comes.
use mathlib.Core.Path.{subst}
use vekterm.Base.{
  if◌then◌else◌, ℕ, ◌+◌, ◌<◌, ◌≡◌, refl, arith, Bool, true, false, some, List, [], ◌∷◌, ◌++◌,
  length, concat, All, All-append, ap, sym, ◌∙◌, ◌>>=◌,
}
use vekterm.Protocol.Word.{pack_be}
use vekterm.Protocol.Message.{
  Message, colour, move, draw, header, hint, done, leave, ping, container, encode,
}
use vekterm.Frame.State.{Sink, Parser}
use vekterm.Frame.Beam.{reset_frame}
use vekterm.Frame.Parser.{count_word, is_some, notify, with_ctx, deliver, on_complete}
use vekterm.Frame.Picture.{Picture, Shown, blank, finish, draws, shows, depicts, performs}
use vekterm.Frame.Valid.{IsByte, IsValid}
use vekterm.Frame.Valid.Feed.{feed-IsValid}
use vekterm.Frame.Refine.Client.{Plays, obeys, on_cmd-ping}
use vekterm.Frame.Refine.Stream.{IsPlain, loaded, transmit, transmit-IsByte, hears, feed-hears}
use vekterm.Receiver.State.{rx_spins, Call, Globals}
use vekterm.Receiver.Callbacks.{receiver_sink, on_frame, on_keepalive}
use vekterm.Receiver.Picture.{IsHeld, Draws, newest, newest-append, receiver-IsClient}
use vekterm.Receiver.Loop.{World, Machine, globals, now, timed, set_activity, turn}
use vekterm.Receiver.Session.Calm.{is_active, Calm, IsWired}
use vekterm.Receiver.Session.Bytes.{
  IsDrawing, frame_bytes, done-IsPlain, hears-append, hears-sink, performs-frame, depicts-frame,
  stream-Calm,
}
use vekterm.Receiver.Session.Hear.{Arrives, receive-Calm}
use vekterm.Receiver.Expiry.{end_turn}
use vekterm.Receiver.Session.State.{IsBetween, IsListening, IsDrawn, change-Plays, resync-Plays}
use vekterm.Receiver.Session.Reply.{end_turn-IsFinished, end_turn-IsBetween, end_turn-IsAnswered}

-- What ends a turn's bytes: the end of a frame, or a ping.
abbrev is_last : Message → Bool
is_last (done m) = true
is_last ping = true
is_last _ = false

last-active :
    (x : Message) (p : Parser Globals)
    → is_last x ≡ true
    → IsWired p.sink
    → is_active (hears (x ∷ []) p) ≡ true
unfolding hears obeys on_complete reset_frame receiver_sink on_frame on_keepalive
last-active (done m) p h (g, wired) =
    ap
      (λ (t : Sink Globals).
        (deliver t.on_frame t.ctx (record p.frame { monochrome = m })).g_activity)
      wired
last-active ping p h (g, wired) =
    let p' = count_word (loaded p (pack_be (encode ping))) in
    ap is_active (on_cmd-ping p')
    ∙ ap
        (λ (t : Sink Globals). is_active (
          if is_some t.on_keepalive
          then record p' { sink = with_ctx t (notify t.on_keepalive t.ctx) }
          else record p' { sink = t }))
        wired
last-active (colour r g b) p h v = cc
last-active (move x y) p h v = cc
last-active (draw x y) p h v = cc
last-active (header n) p h v = cc
last-active (hint n) p h v = cc
last-active leave p h v = cc
last-active (container s n) p h v = cc

module _ (w : World) where
  -- The parser when the receive loop of a turn begins.
  abbrev pub waiting_parser : Machine → Parser Globals
  waiting_parser m = (set_activity (timed w m) false).parser

  -- The receive loop of a turn in which messages come: the parser then follows them and is active.
  hears-stream :
      (m : Machine) (pic : Picture) (shown : List Shown) (body : List Message) (x : Message)
      → IsBetween m pic shown
      → All IsPlain body
      → All IsDrawing body
      → IsPlain x
      → is_last x ≡ true
      → let p = waiting_parser m in
        let q = hears (body ++ (x ∷ [])) p in
        Calm p (transmit (body ++ (x ∷ []))) q
        × IsValid q
        × Plays
            (Draws (globals m).calls (globals m).g_peer_v2)
            q
            (depicts (body ++ (x ∷ [])) pic)
            (performs (body ++ (x ∷ [])) pic shown)
        × (is_active q ≡ true)
  hears-stream m pic shown body x i plain draws last ends =
      let p = waiting_parser m in
      let client = receiver-IsClient (globals m).calls (globals m).g_peer_v2 in
      let plays =
        change-Plays m.parser (record (globals m) { g_activity = false }) shown refl refl refl refl
          i.plays in
      let v = i.valid in
      let valid : IsValid p = ground arith in
      let (g, wired, _, _, _) = plays.sink in
      let whole = All-append IsPlain body (x ∷ []) plain (last, tt) in
      let (fed, played) = feed-hears client (body ++ (x ∷ [])) whole plays in
      let wired' : IsWired (hears body p).sink = (g, hears-sink body p draws ∙ wired) in
      (
        stream-Calm client body x plain last draws valid (g, wired) plays refl,
        feed-IsValid (transmit (body ++ (x ∷ []))) p (transmit-IsByte _) valid fed,
        played,
        ap is_active (hears-append body (x ∷ []) p) ∙ last-active x (hears body p) ends wired',
      )

  -- What is held is the newest frame.
  pub Plays-IsHeld :
      {p : Parser Globals} {pic : Picture} {made : List Call} {peer : Bool} (shown : List Shown)
      (sh : Shown)
      → newest shown ≡ some sh
      → Plays (Draws made peer) p pic shown
      → IsHeld p.sink.ctx sh × (p.sink.ctx.calls ≡ made) × (p.sink.ctx.g_peer_v2 ≡ peer)
  Plays-IsHeld {p} shown sh last v =
      let (g, wired, showing, calls, voice) = v.sink in
      let ctx : p.sink.ctx ≡ g = unfold receiver_sink in ap (λ (t : Sink Globals). t.ctx) wired in
      (
        subst (λ h. IsHeld h sh) (sym ctx) (showing.held sh last),
        ap (λ h. h.calls) ctx ∙ calls,
        ap (λ h. h.g_peer_v2) ctx ∙ voice,
      )

  -- A turn in which messages come that leave the picture blank: the newest frame is drawn.
  pub turn-stream :
      (m : Machine) (pic : Picture) (shown shown' : List Shown) (body : List Message) (x : Message)
      (pieces : List (List ℕ)) (sh : Shown)
      → IsBetween m pic shown
      → All IsPlain body
      → All IsDrawing body
      → IsPlain x
      → is_last x ≡ true
      → concat pieces ≡ transmit (body ++ (x ∷ []))
      → length pieces < rx_spins
      → Arrives w (now w m) (m.timer_reads + 1) m.polls pieces
      → depicts (body ++ (x ∷ [])) pic ≡ blank 0
      → performs (body ++ (x ∷ [])) pic shown ≡ shown'
      → newest shown' ≡ some sh
      → (out : Machine) × (turn w m ≡ some out) × IsListening out shown' × IsDrawn w m out sh
  unfolding turn
  turn-stream m pic shown shown' body x pieces sh i plain draws last ends same few come clear
        now_shown new =
      let p = waiting_parser m in
      let q = hears (body ++ (x ∷ [])) p in
      let made = (globals m).calls in
      let peer = (globals m).g_peer_v2 in
      let (calm, valid, played, on) = hears-stream m pic shown body x i plain draws last ends in
      let plays =
        subst (λ pic. Plays (Draws made peer) q pic shown') clear
          (subst (λ out. Plays (Draws made peer) q (depicts (body ++ (x ∷ [])) pic) out) now_shown
            played) in
      let (held, calls, voice) = Plays-IsHeld {p = q} shown' sh new plays in
      let bytes : All IsByte (concat pieces) =
        subst (All IsByte) (sym same) (transmit-IsByte (body ++ (x ∷ []))) in
      let heard =
        receive-Calm w (now w m) pieces rx_spins (set_activity (timed w m) false) q i.lost few bytes
          i.empty (subst (λ bs. Calm p bs q) (sym same) calm) on come in
      let m' = record m {
        parser = q;
        ring = heard.ring;
        timer_reads = heard.timer_reads;
        polls = heard.polls;
      } in
      let finished = end_turn-IsFinished w m' on held.have in
      (
        end_turn w m',
        ap (λ o. o >>= λ h. some (end_turn w h)) heard.ended,
        end_turn-IsBetween w m' (end_turn w m') shown' i.lost valid (resync-Plays plays) heard.empty
            finished,
        record {
          answered =
              end_turn-IsAnswered w m m' (end_turn w m') sh calls voice held finished
                (omega (arith, heard.onward));
          at = m'.timer_reads;
          later = omega (arith, heard.later);
          active = finished.active;
        },
      )

  -- A receiver between two frames, to which the bytes of a frame come in pieces that the ring can
  -- take, each found by a poll within 50 ms of the start of the turn and less than five million of
  -- them: the turn meets no fault and ends, it has waited for the refresh and drawn exactly this
  -- frame, mapped; it has replied, to a sender that has negotiated with a timing record that holds
  -- the number of the frame's vectors and whether some were dropped, and to another with the sync
  -- byte alone; the time without activity starts again, and the receiver listens for the next frame.
  pub turn-frame :
      (m : Machine) (shown : List Shown) (body : List Message) (mono : Bool)
      (pieces : List (List ℕ))
      → IsListening m shown
      → All IsPlain body
      → All IsDrawing body
      → concat pieces ≡ frame_bytes body mono
      → length pieces < rx_spins
      → Arrives w (now w m) (m.timer_reads + 1) m.polls pieces
      → let sh = finish (depicts body (blank 0)) mono in
        (out : Machine) × (turn w m ≡ some out)
        × IsListening out (shown ++ (sh ∷ []))
        × IsDrawn w m out sh
  unfolding frame_bytes
  turn-frame m shown body mono pieces i plain draws same few come =
      let sh = finish (depicts body (blank 0)) mono in
      turn-stream m (blank 0) shown (shown ++ (sh ∷ [])) body (done mono) pieces sh i plain draws
        (done-IsPlain mono) refl same few come (depicts-frame body mono (blank 0))
        (performs-frame body mono (blank 0) shown draws) (newest-append shown sh)

  -- A receiver between two frames that has shown some, to which a ping comes in the same way: the turn
  -- meets no fault and ends, the newest frame is drawn again and replied to as when it came, the time
  -- without activity starts again, so that the frame is not dropped for want of another, and the
  -- receiver listens on.
  pub turn-ping :
      (m : Machine) (shown : List Shown) (sh : Shown) (pieces : List (List ℕ))
      → IsListening m shown
      → newest shown ≡ some sh
      → concat pieces ≡ transmit (ping ∷ [])
      → length pieces < rx_spins
      → Arrives w (now w m) (m.timer_reads + 1) m.polls pieces
      → (out : Machine) × (turn w m ≡ some out) × IsListening out shown × IsDrawn w m out sh
  turn-ping m shown sh pieces i new same few come =
      turn-stream m (blank 0) shown shown [] ping pieces sh i tt tt
        (record { fits = tt; no_payload = refl }) refl same few come (unfold depicts draws in refl)
        (unfold performs draws shows in refl) new
