-- ===== src/Frame/Client/Feed.antt =====
-- An invariant of the client's context, from the callbacks to a stream of bytes.
use vekterm.Base.{
  ◌==◌, ℕ, ◌≡◌, arith, Bool, Bool-cases, Option-cases, >>=-eq-some, inl, inr, ltb, List, [], ◌∷◌,
  some, set, All, ◌+◌, if◌then◌else◌, true, false, leb,
}
use vekterm.Protocol.Word.{
  Flag, Command, complete, rgb, xy, quality, frame, cmd, ext, exit, decode_word, unpack_be,
}
use vekterm.Frame.State.{Frame, Sink, Parser}
use vekterm.Frame.Beam.{clamp_dev_coord, reset_frame}
use vekterm.Frame.Parser.{
  count_word, notify, deliver, with_ctx, set_monochrome, on_header, on_xy, on_complete,
  on_exit_word, begin_ext, on_ext, on_cmd, dispatch, feed_word, store_payload, feed_payload, gather,
  feed_byte, feed,
}
use vekterm.Frame.Valid.{IsByte, IsFrame, IsValid}
use vekterm.Frame.Valid.Feed.{feed_byte-IsValid}
use vekterm.Frame.Client.Payload.{sink-dispatch_ext, sink-emit_lit}

-- A predicate on sinks that every call of a callback keeps, for frames that fit their buffer and lie
-- on the device grid.
pub record IsClosed {C : Type 0} (K : Sink C → Type 0) : Type 0 where
  pub frame_ok :
      (s : Sink C) (f : Frame) → IsFrame f → K s → K (with_ctx s (deliver s.on_frame s.ctx f))
  pub exit_ok : (s : Sink C) → K s → K (with_ctx s (notify s.on_exit s.ctx))
  pub query_ok : (s : Sink C) → K s → K (with_ctx s (notify s.on_query s.ctx))
  pub keepalive_ok : (s : Sink C) → K s → K (with_ctx s (notify s.on_keepalive s.ctx))

module _ {C : Type 0} {K : Sink C → Type 0} (closed : IsClosed K) where
  kept : {s t : Sink C} → t ≡ s → K s → K t
  kept e v = rw e v

  on_complete-kept :
      (p : Parser C) (m : Bool) → IsFrame p.frame → K p.sink → K (on_complete p m).sink
  unfolding on_complete reset_frame
  on_complete-kept p m f v =
      let shown : IsFrame (set_monochrome p.frame m) = record {
        capacity = f.capacity;
        used = f.used;
        on_grid = f.on_grid;
      } in
      closed.frame_ok p.sink (set_monochrome p.frame m) shown v

  on_xy-sink : (p : Parser C) (c : Command) → (on_xy p c).sink ≡ p.sink
  unfolding on_xy
  on_xy-sink p c = ground (arith, sink-emit_lit p (clamp_dev_coord c.x) (clamp_dev_coord c.y))

  if-kept : (b : Bool) (x y : Parser C) → K x.sink → K y.sink → K (if b then x else y).sink
  if-kept true x y v u = v
  if-kept false x y v u = u

  on_cmd-kept : (p : Parser C) (w : ℕ) → K p.sink → K (on_cmd p w).sink
  unfolding on_cmd
  on_cmd-kept p w v =
      let hello = closed.query_ok p.sink v in
      let ping = closed.keepalive_ok p.sink v in if-kept _ _ _ hello (if-kept _ _ _ ping v)

  dispatch-kept :
      (f : Flag) (c : Command) (w : ℕ) (p : Parser C) {out : Parser C}
      → IsFrame p.frame
      → K p.sink
      → dispatch f c w p ≡ some out
      → K out.sink
  unfolding dispatch on_header reset_frame on_exit_word on_ext begin_ext
  dispatch-kept frame c w p i v e = kept (ground arith) v
  dispatch-kept rgb c w p i v e = kept (ground arith) v
  dispatch-kept xy c w p i v e = kept (ground (arith, on_xy-sink p c)) v
  dispatch-kept complete c w p i v e = kept (ground arith) (on_complete-kept p c.monochrome i v)
  dispatch-kept exit c w p i v e = kept (ground arith) (closed.exit_ok p.sink v)
  dispatch-kept ext c w p {out} i v e =
      kept (ground (arith, sink-dispatch_ext (begin_ext p w) {out = out})) v
  dispatch-kept cmd c w p i v e = kept (ground arith) (on_cmd-kept p w v)
  dispatch-kept quality c w p i v e = kept (ground arith) v

  feed_payload-sink :
      (p : Parser C) (b : ℕ) {out : Parser C} → feed_payload p b ≡ some out → out.sink ≡ p.sink
  unfolding feed_payload store_payload
  feed_payload-sink p b {out} e = ground (arith, sink-dispatch_ext (store_payload p b) {out = out})

  gather-kept :
      (p : Parser C) (n b : ℕ) {out : Parser C}
      → IsFrame p.frame
      → K p.sink
      → gather p n b ≡ some out
      → K out.sink
  unfolding gather feed_word
  gather-kept p n b {out} i v e = elim (Option-cases (unpack_be (set p.bytes n b))) [
    | inl short ↦ kept (ground arith) v
    | inr (w, word) ↦ elim (Bool-cases (n + 1 == 4)) [
      | inl last ↦
          dispatch-kept (decode_word w).flag (decode_word w) w
            (count_word (record p { bytes = set p.bytes n b; nbytes = 0 })) {out = out} i v
            (ground arith)
      | inr more ↦ kept (ground arith) v
    ]
  ]

  pub feed_byte-kept :
      (p : Parser C) (b : ℕ) {out : Parser C}
      → IsFrame p.frame
      → K p.sink
      → feed_byte p b ≡ some out
      → K out.sink
  unfolding feed_byte
  feed_byte-kept p b {out} i v e = elim (Bool-cases (ltb 0 p.ext_remaining)) [
    | inl payload ↦ kept (feed_payload-sink p b {out = out} (ground arith)) v
    | inr word ↦
        gather-kept p (if leb 4 p.nbytes then 0 else p.nbytes) b {out = out} i v (ground arith)
  ]

  -- What every call of a callback keeps holds after any stream of bytes that a valid parser is fed.
  pub feed-kept :
      (bytes : List ℕ) (p : Parser C) {out : Parser C}
      → All IsByte bytes
      → IsValid p
      → K p.sink
      → feed p bytes ≡ some out
      → K out.sink
  unfolding feed
  feed-kept [] p hs i v e = kept (ground arith) v
  feed-kept (b ∷ bytes) p hs i v e =
      let (q, step, rest) = >>=-eq-some (feed_byte p b) _ e in
      feed-kept bytes q hs.1 (feed_byte-IsValid p b hs.0 i step)
        (feed_byte-kept p b i.vectors v step) rest

module _ {C : Type 0} (J : C → Type 0) where
  -- The context has the invariant, and every callback keeps it.
  pub record Serves (s : Sink C) : Type 0 where
    pub ctx_ok : J s.ctx
    pub frame_ok : (c : C) (f : Frame) → IsFrame f → J c → J (deliver s.on_frame c f)
    pub exit_ok : (c : C) → J c → J (notify s.on_exit c)
    pub query_ok : (c : C) → J c → J (notify s.on_query c)
    pub keepalive_ok : (c : C) → J c → J (notify s.on_keepalive c)

  pub with_ctx-Serves : (s : Sink C) (c : C) → Serves s → J c → Serves (with_ctx s c)
  with_ctx-Serves s c v j = record {
    ctx_ok = j;
    frame_ok = v.frame_ok;
    exit_ok = v.exit_ok;
    query_ok = v.query_ok;
    keepalive_ok = v.keepalive_ok;
  }

  Serves-IsClosed : IsClosed Serves
  Serves-IsClosed = record {
    frame_ok = λ s f i v. with_ctx-Serves s _ v (v.frame_ok s.ctx f i v.ctx_ok);
    exit_ok = λ s v. with_ctx-Serves s _ v (v.exit_ok s.ctx v.ctx_ok);
    query_ok = λ s v. with_ctx-Serves s _ v (v.query_ok s.ctx v.ctx_ok);
    keepalive_ok = λ s v. with_ctx-Serves s _ v (v.keepalive_ok s.ctx v.ctx_ok);
  }

  -- An invariant of the client that every callback keeps, for frames that fit their buffer and lie
  -- on the device grid, holds after any stream of bytes that a valid parser is fed.
  pub feed-Serves :
      (bytes : List ℕ) (p : Parser C) {out : Parser C}
      → All IsByte bytes
      → IsValid p
      → Serves p.sink
      → feed p bytes ≡ some out
      → Serves out.sink
  feed-Serves bytes p hs i v e = feed-kept Serves-IsClosed bytes p hs i v e
