-- ===== src/Receiver/Session/Bytes.antt =====
-- The bytes of a frame or of a ping, and where the receiver's activity begins in them: at the last
-- one.
use vekterm.Base.{
  ℕ, ◌≡◌, refl, arith, Bool, true, false, >>=-eq-some, some, List, [], ◌∷◌, ◌++◌, length, All, ap,
  sym, ◌∙◌,
}
use mathlib.Core.List.{append_assoc}
use mathlib.Core.Path.{subst}
use vekterm.Protocol.Word.{pack_be, unpack_be}
use vekterm.Protocol.Message.{
  Message, colour, move, draw, header, hint, done, leave, ping, container, encode,
}
use vekterm.Frame.State.{Sink, Parser}
use vekterm.Frame.Beam.{reset_frame, emit_lit}
use vekterm.Frame.Parser.{count_word, on_header, gather, feed_byte, feed}
use vekterm.Frame.Picture.{Picture, Shown, blank, finish, draws, depicts, shows, performs}
use vekterm.Frame.Valid.{IsValid}
use vekterm.Frame.Refine.Client.{IsClient, Plays, obeys}
use vekterm.Frame.Refine.Stream.{IsPlain, loaded, transmit, transmit-IsByte, hears, feed-hears}
use vekterm.Receiver.State.{Globals}
use vekterm.Receiver.Session.Calm.{is_active, Calm, Calm-append, IsWired, or_self, feed-Calm}

-- A message that only draws.
abbrev pub is_drawing : Message → Bool
is_drawing (done m) = false
is_drawing leave = false
is_drawing ping = false
is_drawing (container s n) = false
is_drawing _ = true

abbrev pub IsDrawing : Message → Type 0
IsDrawing m = is_drawing m ≡ true

-- The bytes of one frame.
unfoldable pub frame_bytes : List Message → Bool → List ℕ
frame_bytes body m = transmit (body ++ (done m ∷ []))

transmit-append : (xs ys : List Message) → transmit (xs ++ ys) ≡ transmit xs ++ transmit ys
unfolding transmit
transmit-append [] ys = refl
transmit-append (x ∷ xs) ys =
    ap (λ bs. pack_be (encode x) ++ bs) (transmit-append xs ys)
    ∙ sym (append_assoc (pack_be (encode x)) (transmit xs) (transmit ys))

-- Drawing shows the client nothing before its end.
pub performs-frame :
    (body : List Message) (m : Bool) (pic : Picture) (out : List Shown)
    → All IsDrawing body
    → performs (body ++ (done m ∷ [])) pic out ≡ out ++ (finish (depicts body pic) m ∷ [])
unfolding performs depicts draws shows
performs-frame [] m pic out hs = refl
performs-frame (colour r g b ∷ body) m pic out hs = performs-frame body m _ out hs.1
performs-frame (move x y ∷ body) m pic out hs = performs-frame body m _ out hs.1
performs-frame (draw x y ∷ body) m pic out hs = performs-frame body m _ out hs.1
performs-frame (header n ∷ body) m pic out hs = performs-frame body m _ out hs.1
performs-frame (hint n ∷ body) m pic out hs = performs-frame body m _ out hs.1
performs-frame (done k ∷ body) m pic out (h, hs) = cc
performs-frame (leave ∷ body) m pic out (h, hs) = cc
performs-frame (ping ∷ body) m pic out (h, hs) = cc
performs-frame (container s n ∷ body) m pic out (h, hs) = cc

pub depicts-frame :
    (body : List Message) (m : Bool) (pic : Picture) → depicts (body ++ (done m ∷ [])) pic ≡ blank 0
unfolding depicts draws
depicts-frame [] m pic = refl
depicts-frame (x ∷ body) m pic = depicts-frame body m (draws x pic)

obeys-sink : {C : Type 0} (m : Message) (p : Parser C) → IsDrawing m → (obeys m p).sink ≡ p.sink
unfolding obeys on_header reset_frame
obeys-sink (colour r g b) p h = refl
obeys-sink (move x y) p h = refl
obeys-sink (draw x y) p h = unfold emit_lit in refl
obeys-sink (header n) p h = refl
obeys-sink (hint n) p h = refl
obeys-sink (done m) p h = cc
obeys-sink leave p h = cc
obeys-sink ping p h = cc
obeys-sink (container s n) p h = cc

-- Drawing calls nothing back.
pub hears-sink :
    {C : Type 0} (body : List Message) (p : Parser C)
    → All IsDrawing body
    → (hears body p).sink ≡ p.sink
unfolding hears
hears-sink [] p hs = refl
hears-sink (m ∷ body) p hs =
    let p' = count_word (loaded p (pack_be (encode m))) in
    hears-sink body (obeys m p') hs.1 ∙ obeys-sink m p' hs.0

pub done-IsPlain : (m : Bool) → IsPlain (done m)
done-IsPlain m = record { fits = tt; no_payload = refl }

-- The four bytes of a word: what is active then was so before, or came with the last of them.
word-Calm_at :
    (bytes : List ℕ) (p q : Parser Globals) (a b c d : ℕ)
    → length bytes ≡ 4
    → is_active p ≡ false
    → feed (loaded p bytes) (a ∷ b ∷ c ∷ d ∷ []) ≡ some q
    → Calm (loaded p bytes) (a ∷ b ∷ c ∷ d ∷ []) q
unfolding feed feed_byte gather unpack_be
word-Calm_at (o0 ∷ o1 ∷ o2 ∷ o3 ∷ []) p q a b c d h quiet e =
    let (r, step, same) = >>=-eq-some _ (λ (s : Parser Globals). some s) e in
    (
      quiet,
      (_, refl, (quiet, (_, refl, (quiet, (_, refl, (quiet, (r, step, ap (or_self q) same))))))),
    )
word-Calm_at [] p q a b c d h quiet e = absurd (omega arith)
word-Calm_at (o0 ∷ []) p q a b c d h quiet e = absurd (omega arith)
word-Calm_at (o0 ∷ o1 ∷ []) p q a b c d h quiet e = absurd (omega arith)
word-Calm_at (o0 ∷ o1 ∷ o2 ∷ []) p q a b c d h quiet e = absurd (omega arith)
word-Calm_at (o0 ∷ o1 ∷ o2 ∷ o3 ∷ o4 ∷ os) p q a b c d h quiet e = absurd (omega arith)

pub hears-append :
    {C : Type 0} (xs ys : List Message) (p : Parser C) → hears (xs ++ ys) p ≡ hears ys (hears xs p)
unfolding hears
hears-append [] ys p = refl
hears-append (x ∷ xs) ys p = hears-append xs ys _

module _ {W : Sink Globals → List Shown → Type 0} (client : IsClient W) where
  last-Calm :
      (x : Message) {p : Parser Globals} {pic : Picture} {out : List Shown}
      → IsPlain x
      → Plays W p pic out
      → is_active p ≡ false
      → Calm p (transmit (x ∷ [])) (hears (x ∷ []) p)
  unfolding transmit pack_be
  last-Calm x {p} plain v quiet =
      let start : p ≡ loaded p p.bytes =
        λ i. record p { nbytes = v.word_start i; ext_remaining = v.no_payload i } in
      let fed = (feed-hears client (x ∷ []) (plain, tt) v).0 in
      subst (λ s. Calm s (transmit (x ∷ [])) (hears (x ∷ []) p)) (sym start)
        (word-Calm_at p.bytes p (hears (x ∷ []) p) _ _ _ _ v.word_room quiet
          (ap (λ s. feed s (transmit (x ∷ []))) (sym start) ∙ fed))

  -- The bytes of drawing messages and one more show no activity before the last of them.
  pub stream-Calm :
      (body : List Message) (x : Message) {p : Parser Globals} {pic : Picture} {out : List Shown}
      → All IsPlain body
      → IsPlain x
      → All IsDrawing body
      → IsValid p
      → IsWired p.sink
      → Plays W p pic out
      → is_active p ≡ false
      → Calm p (transmit (body ++ (x ∷ []))) (hears (body ++ (x ∷ [])) p)
  stream-Calm body x {p} plain last draws valid wired v quiet =
      let (fed, v') = feed-hears client body plain v in
      let still : is_active (hears body p) ≡ false =
        ap (λ (s : Sink Globals). s.ctx.g_activity) (hears-sink body p draws) ∙ quiet in
      let first =
        feed-Calm (transmit body) p (hears body p) (transmit-IsByte body) valid wired fed still in
      let whole =
        Calm-append (transmit body) _ p (hears body p) _ first (last-Calm x last v' still) in
      subst (λ bs. Calm p bs (hears (body ++ (x ∷ [])) p)) (sym (transmit-append body (x ∷ [])))
        (subst (Calm p (transmit body ++ transmit (x ∷ []))) (sym (hears-append body (x ∷ []) p))
          whole)
