-- ===== src/Receiver/Session/Calm.antt =====
-- Streams of bytes that show no activity to the receiver before their last byte.
use mathlib.Core.Path.{subst}
use vekterm.Base.{
  ℕ, ◌≡◌, refl, Bool, true, false, Bool-cases, >>=-eq-some, inl, inr, Option, none, some, List, [],
  ◌∷◌, ◌++◌, All, ap, sym, ◌∙◌,
}
use vekterm.Frame.State.{Sink, Parser}
use vekterm.Frame.Parser.{with_ctx, notify, deliver, feed_byte, feed}
use vekterm.Frame.Valid.{IsByte, IsValid}
use vekterm.Frame.Valid.Feed.{feed_byte-IsValid}
use vekterm.Frame.Client.Feed.{IsClosed, feed_byte-kept, feed-kept}
use vekterm.Receiver.State.{Globals}
use vekterm.Receiver.Callbacks.{receiver_sink, on_frame, on_exit, on_query, on_keepalive}

abbrev pub is_active : Parser Globals → Bool
is_active p = p.sink.ctx.g_activity

-- The bytes take the parser from `p` to `q`, and before each of them there is no activity.
abbrev pub Calm : Parser Globals → List ℕ → Parser Globals → Type 0
Calm p [] q = p ≡ q
Calm p (b ∷ bs) q =
    (is_active p ≡ false) × ((r : Parser Globals) × (feed_byte p b ≡ some r) × Calm r bs q)

pub Calm-append :
    (xs ys : List ℕ) (p q r : Parser Globals) → Calm p xs q → Calm q ys r → Calm p (xs ++ ys) r
Calm-append [] ys p q r e c = subst (λ t. Calm t ys r) (sym e) c
Calm-append (x ∷ xs) ys p q r (quiet, (s, fed, rest)) c =
    (quiet, (s, fed, Calm-append xs ys s q r rest c))

pub Calm-split :
    (xs ys : List ℕ) (p r : Parser Globals)
    → Calm p (xs ++ ys) r
    → (q : Parser Globals) × Calm p xs q × Calm q ys r
Calm-split [] ys p r c = (p, refl, c)
Calm-split (x ∷ xs) ys p r (quiet, (s, fed, rest)) =
    let (q, left, right) = Calm-split xs ys s r rest in (q, (quiet, (s, fed, left)), right)

-- The sink is the receiver's, and the activity flag is this.
abbrev pub IsFlagged : Bool → Sink Globals → Type 0
IsFlagged b s = (g : Globals) × (s ≡ receiver_sink g) × (g.g_activity ≡ b)

-- Activity stays.
IsFlagged-IsClosed : IsClosed (IsFlagged true)
unfolding receiver_sink on_frame on_exit on_query on_keepalive
IsFlagged-IsClosed = record {
  frame_ok = λ s f i v. (
    on_frame v.0 f,
    ap (λ (t : Sink Globals). with_ctx t (deliver t.on_frame t.ctx f)) v.1,
    refl,
  );
  exit_ok = λ s v. (v.0, ap (λ (t : Sink Globals). with_ctx t (notify t.on_exit t.ctx)) v.1, v.2);
  query_ok = λ s v.
      (on_query v.0, ap (λ (t : Sink Globals). with_ctx t (notify t.on_query t.ctx)) v.1, v.2);
  keepalive_ok = λ s v. (
    on_keepalive v.0,
    ap (λ (t : Sink Globals). with_ctx t (notify t.on_keepalive t.ctx)) v.1,
    refl,
  );
}

-- The sink is the receiver's.
abbrev pub IsWired : Sink Globals → Type 0
IsWired s = (g : Globals) × (s ≡ receiver_sink g)

IsWired-IsClosed : IsClosed IsWired
unfolding receiver_sink on_exit
IsWired-IsClosed = record {
  frame_ok = λ s f i v.
      (on_frame v.0 f, ap (λ (t : Sink Globals). with_ctx t (deliver t.on_frame t.ctx f)) v.1);
  exit_ok = λ s v. (v.0, ap (λ (t : Sink Globals). with_ctx t (notify t.on_exit t.ctx)) v.1);
  query_ok =
      λ s v. (on_query v.0, ap (λ (t : Sink Globals). with_ctx t (notify t.on_query t.ctx)) v.1);
  keepalive_ok = λ s v.
      (on_keepalive v.0, ap (λ (t : Sink Globals). with_ctx t (notify t.on_keepalive t.ctx)) v.1);
}

wired-activity :
    (s : Sink Globals) (g : Globals) → s ≡ receiver_sink g → s.ctx.g_activity ≡ g.g_activity
unfolding receiver_sink
wired-activity s g e = ap (λ (t : Sink Globals). t.ctx.g_activity) e

abbrev pub or_self : Parser Globals → Option (Parser Globals) → Parser Globals
or_self p none = p
or_self p (some r) = r

-- Bytes after which there is no activity are calm.
pub feed-Calm :
    (bytes : List ℕ) (p q : Parser Globals)
    → All IsByte bytes
    → IsValid p
    → IsWired p.sink
    → feed p bytes ≡ some q
    → is_active q ≡ false
    → Calm p bytes q
unfolding feed
feed-Calm [] p q hs v wired e quiet = ap (or_self p) e
feed-Calm (b ∷ bytes) p q hs v (g, wired) e quiet =
    let (r, step, rest) = >>=-eq-some (feed_byte p b) _ e in
    let before : is_active p ≡ false = elim (Bool-cases (is_active p)) [
      | inl on ↦
          let (g', wired', on') =
            feed-kept IsFlagged-IsClosed (b ∷ bytes) p hs v
              (g, wired, sym (wired-activity p.sink g wired) ∙ on) e in
          let loud = wired-activity q.sink g' wired' ∙ on' in cc
      | inr off ↦ off
    ] in
    let later =
      feed-Calm bytes r q hs.1 (feed_byte-IsValid p b hs.0 v step)
        (feed_byte-kept IsWired-IsClosed p b v.vectors (g, wired) step) rest quiet in
    (before, (r, step, later))
