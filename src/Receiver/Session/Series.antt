-- ===== src/Receiver/Session/Series.antt =====
-- A sender that sends a frame or a ping for each reply: what the receiver draws from its start on.
use mathlib.Core.List.{append_assoc, append-nil}
use vekterm.Base.{
  none, length-replicate, ℕ, zero, suc, ◌+◌, ◌<◌, ◌≡◌, refl, arith, Bool, false, Option, some, List,
  [], ◌∷◌, ◌++◌, length, concat, All, ap, sym, ◌∙◌, ◌>>=◌,
}
use vekterm.Protocol.Message.{Message, ping}
use vekterm.Frame.Picture.{Shown, blank, finish, depicts}
use vekterm.Frame.Refine.Stream.{IsPlain}
use vekterm.Receiver.State.{uart_baud, device_up, baud_options, emit, rx_spins, Call}
use vekterm.Receiver.Callbacks.{receiver_sink}
use vekterm.Protocol.Hello.{max_pipeline}
use vekterm.Frame.Beam.{init, resync}
use vekterm.Frame.Valid.Beam.{init-IsValid, resync-IsValid}
use vekterm.Frame.Refine.Stream.{init-Plays, transmit}
use vekterm.UartRx.Ring.{rxbuf_size, reset_ring}
use vekterm.UartRx.Queue.{arrivals}
use vekterm.UartRx.Refine.{flush-Holds, reset_ring-Holds}
use vekterm.Receiver.Reply.{send_sync_reply}
use vekterm.Receiver.Picture.{receiver-IsClient, none_held, newest, newest-append}
use vekterm.Receiver.Loop.{
  zero_seg, static_globals, static_ring, find_baud, flush_uart, World, Machine, globals, now, turn,
  start_up,
}
use vekterm.Receiver.Session.Bytes.{IsDrawing, frame_bytes}
use vekterm.Receiver.Session.Hear.{queued, Arrives}
use vekterm.Receiver.Session.State.{IsListening, IsDrawn, change-Plays, resync-Plays}
use vekterm.Receiver.Session.Turn.{turn-frame, turn-ping}
use vekterm.Receiver.Session.Drawn.{scene, drawn, drawn-turn}

-- A frame to send: its messages, the flag of its end, and the pieces in which its bytes come.
pub record Sent : Type 0 where
  pub body : List Message
  pub mono : Bool
  pub pieces : List (List ℕ)

-- What a sender sends for a reply: a frame, or a ping in these pieces.
pub data Action : Type 0 where
  sends : Sent → Action
  pings : List (List ℕ) → Action

abbrev pub pieces_of : Action → List (List ℕ)
pieces_of (sends s) = s.pieces
pieces_of (pings pieces) = pieces

-- The frame as it is to be shown.
abbrev pub picture : Sent → Shown
picture s = finish (depicts s.body (blank 0)) s.mono

-- The frames shown after an action.
abbrev pub after : List Shown → Action → List Shown
after shown (sends s) = shown ++ (picture s ∷ [])
after shown (pings pieces) = shown

abbrev pub after_all : List Shown → List Action → List Shown
after_all shown [] = shown
after_all shown (a ∷ left) = after_all (after shown a) left

-- What is drawn in the turns of these actions: each time the newest frame.
abbrev pub newest_scene : Option Shown → List Call
newest_scene none = []
newest_scene (some sh) = scene sh

abbrev pub scenes : List Shown → List Action → List Call
scenes shown [] = []
scenes shown (a ∷ left) = newest_scene (newest (after shown a)) ++ scenes (after shown a) left

pub record IsSent (s : Sent) : Type 0 where
  pub plain : All IsPlain s.body
  pub drawing : All IsDrawing s.body
  pub bytes : concat s.pieces ≡ frame_bytes s.body s.mono
  pub few : length s.pieces < rx_spins

abbrev pub IsSendable : Action → Type 0
IsSendable (sends s) = IsSent s
IsSendable (pings pieces) = (concat pieces ≡ transmit (ping ∷ [])) × (length pieces < rx_spins)

module _ (w : World) where
  -- So many turns of the loop of `main`.
  unfoldable pub main_loop : ℕ → Machine → Option Machine
  main_loop zero m = some m
  main_loop (suc n) m = turn w m >>= main_loop n

  -- Each turn finds the pieces of the next action, which the sender takes once it has the reply of
  -- the turn before.
  abbrev pub Delivers : Machine → List Action → Type 0
  Delivers m [] = Unit
  Delivers m (a ∷ left) =
      Arrives w (now w m) (m.timer_reads + 1) m.polls (pieces_of a)
      × ((out : Machine) → turn w m ≡ some out → Delivers out left)

  -- After the turn of an action.
  record Acted (m : Machine) (shown : List Shown) (a : Action) : Type 0 where
    pub out : Machine
    pub sh : Shown
    pub ended : turn w m ≡ some out
    pub listening : IsListening out (after shown a)
    pub drew : IsDrawn w m out sh
    pub new : newest (after shown a) ≡ some sh

  acts-frame :
      (s : Sent) (m : Machine) (shown : List Shown)
      → IsListening m shown
      → IsSent s
      → Arrives w (now w m) (m.timer_reads + 1) m.polls s.pieces
      → Acted m shown (sends s)
  acts-frame s m shown i ok come =
      let (out, ended, listening, drew) =
        turn-frame w m shown s.body s.mono s.pieces i ok.plain ok.drawing ok.bytes ok.few come in
      record {
        out = out;
        sh = picture s;
        ended = ended;
        listening = listening;
        drew = drew;
        new = newest-append shown (picture s);
      }

  acts :
      (a : Action) (m : Machine) (shown : List Shown) (sh : Shown)
      → IsListening m shown
      → newest shown ≡ some sh
      → IsSendable a
      → Arrives w (now w m) (m.timer_reads + 1) m.polls (pieces_of a)
      → Acted m shown a
  acts (sends s) m shown sh i new ok come = acts-frame s m shown i ok come
  acts (pings pieces) m shown sh i new ok come =
      let (out, ended, listening, drew) = turn-ping w m shown sh pieces i new ok.0 ok.1 come in
      record { out = out; sh = sh; ended = ended; listening = listening; drew = drew; new = new }

  -- After the turns of some actions.
  abbrev Drew : Machine → List Shown → List Action → Type 0
  Drew m shown left =
      (out : Machine) × (main_loop (length left) m ≡ some out)
      × (drawn (globals out).calls ≡ drawn (globals m).calls ++ scenes shown left)
      × IsListening out (after_all shown left)

  -- One more action before them.
  Drew-first :
      (m : Machine) (shown : List Shown) (a : Action) (left : List Action) (t : Acted m shown a)
      → Drew t.out (after shown a) left
      → Drew m shown (a ∷ left)
  unfolding main_loop
  Drew-first m shown a left t (out, rest, drew, listening) = (
    out,
    ap (λ o. o >>= main_loop (length left)) t.ended ∙ rest,
    drew
        ∙ ap (λ cs. cs ++ scenes (after shown a) left) (drawn-turn m t.out t.sh t.drew.answered)
        ∙ append_assoc (drawn (globals m).calls) (scene t.sh) (scenes (after shown a) left)
        ∙ ap (λ o. drawn (globals m).calls ++ (newest_scene o ++ scenes (after shown a) left))
            (sym t.new),
    listening,
  )

  main_loop-drawn :
      (left : List Action) (m : Machine) (shown : List Shown) (sh : Shown)
      → IsListening m shown
      → newest shown ≡ some sh
      → All IsSendable left
      → Delivers m left
      → Drew m shown left
  unfolding main_loop
  main_loop-drawn [] m shown sh i new ok come = (m, refl, sym (append-nil _), i)
  main_loop-drawn (a ∷ left) m shown sh i new ok (here, later) =
      let t = acts a m shown sh i new ok.0 here in
      Drew-first m shown a left t (
        main_loop-drawn left t.out (after shown a) t.sh t.listening t.new ok.1
          (later t.out t.ended))

  -- The receiver after its start, when it has drawn nothing.
  pub start_up-IsListening : IsListening (start_up w) [] × (drawn (globals (start_up w)).calls ≡ [])
  unfolding start_up flush_uart send_sync_reply static_globals drawn resync init receiver_sink
  start_up-IsListening =
      let g = record (emit static_globals device_up) {
        g_cur_baud = uart_baud;
        g_baud_idx = find_baud 0 baud_options 0;
      } in
      let made = g.calls in
      let plays =
        init-Plays (receiver-IsClient made false) (receiver_sink g)
          (g, refl, none_held g (length-replicate max_pipeline zero_seg), refl, refl) in
      let v = resync-IsValid (init-IsValid (receiver_sink g)) in
      let started =
        reset_ring-Holds static_ring (unfold static_ring in length-replicate rxbuf_size 0) in
      (
        record {
          valid = ground arith;
          plays =
              change-Plays (resync (init (receiver_sink g))) (globals (start_up w)) [] refl refl
                refl refl (resync-Plays plays);
          lost = (arrivals (queued [] 0) (w.fifo 0)).lost;
          empty = flush-Holds (reset_ring static_ring) (queued [] 0) (w.fifo 0) started;
        },
        refl,
      )

  -- From its start on, to a sender that first sends a frame and then for each reply another or a
  -- ping, where a frame is drawing messages that fit their words and the end of the frame, and its
  -- bytes are found by a turn in time, in pieces that the ring can take: the receiver meets no fault,
  -- each turn ends, and what has been drawn is for each turn, in order, the newest frame, once, after a
  -- wait for the refresh, with all of its vectors mapped.
  pub start_up-draws :
      (s : Sent) (left : List Action)
      → IsSent s
      → All IsSendable left
      → Delivers (start_up w) (sends s ∷ left)
      → (out : Machine) × (main_loop (suc (length left)) (start_up w) ≡ some out)
        × (drawn (globals out).calls ≡ scenes [] (sends s ∷ left))
        × IsListening out (after_all (picture s ∷ []) left)
  start_up-draws s left first ok (here, later) =
      let (listening, none_drawn) = start_up-IsListening in
      let t = acts-frame s (start_up w) [] listening first here in
      let rest =
        main_loop-drawn left t.out (picture s ∷ []) t.sh t.listening t.new ok
          (later t.out t.ended) in
      let (out, ended, drew, listening') = Drew-first (start_up w) [] (sends s) left t rest in
      (out, ended, drew ∙ ap (λ cs. cs ++ scenes [] (sends s ∷ left)) none_drawn, listening')
