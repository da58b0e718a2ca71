-- ===== src/Host/Chunks.antt =====
-- The main loop of src/vekterm.c over a file: the parser after it, however the reads cut the bytes.
use vekterm.Base.{
  ◌≡◌, refl, Bool, true, false, Bool-cases, >>=-eq-some, inl, inr, some, List, [], ◌∷◌, ◌++◌, ℕ,
  All, ap, sym, ◌∙◌, ◌>>=◌, concat, All-parts,
}
use vekterm.Frame.State.{Frame, Sink, Parser}
use vekterm.Frame.Parser.{feed, with_ctx, deliver, notify}
use vekterm.Frame.Valid.{IsByte, IsValid}
use vekterm.Frame.Valid.Feed.{feed-IsValid}
use vekterm.Frame.Client.Feed.{IsClosed, feed-kept}
use vekterm.Frame.Refine.Stream.{feed-append}
use vekterm.Host.App.{
  App, app_on_frame, app_on_exit, app_on_query, app_on_keepalive, app_sink, is_negative,
}
use vekterm.Host.Loop.{
  Read, got, empty, running, end_of_file, stopped, is_running, body, read_loop, take_read,
  check_once,
}

-- The turns of the loop over a file that is read in these pieces: no signal comes, and the last
-- read finds the end.
unfoldable pub turns : List (List ℕ) → List (Bool × Read)
turns [] = (false, empty) ∷ []
turns (c ∷ cs) = (false, got c) ∷ turns cs

-- The sink is the tool's, and its exit flag is this.
abbrev pub Flags : Bool → Sink App → Type 0
Flags b s = (app : App) × (s ≡ app_sink app) × (app.exit_seen ≡ b)

query-exit_seen : (app : App) → (app_on_query app).exit_seen ≡ app.exit_seen
unfolding app_on_query
query-exit_seen app = elim (Bool-cases (is_negative app.out_fd)) [
  | inl file ↦ rw file
  | inr port ↦ rw port
]

-- A frame, a query and a keepalive leave the flag as it is.
pub frame-Flags :
    (b : Bool) (s : Sink App) (f : Frame)
    → Flags b s
    → Flags b (with_ctx s (deliver s.on_frame s.ctx f))
unfolding app_sink app_on_frame
frame-Flags b s f v =
    (app_on_frame v.0 f, ap (λ (t : Sink App). with_ctx t (deliver t.on_frame t.ctx f)) v.1, v.2)

pub keepalive-Flags :
    (b : Bool) (s : Sink App) → Flags b s → Flags b (with_ctx s (notify s.on_keepalive s.ctx))
unfolding app_sink app_on_keepalive
keepalive-Flags b s v =
    (app_on_keepalive v.0, ap (λ (t : Sink App). with_ctx t (notify t.on_keepalive t.ctx)) v.1, v.2)

query-Flags : (b : Bool) (s : Sink App) → Flags b s → Flags b (with_ctx s (notify s.on_query s.ctx))
unfolding app_sink
query-Flags b s v = (
  app_on_query v.0,
  ap (λ (t : Sink App). with_ctx t (notify t.on_query t.ctx)) v.1,
  query-exit_seen v.0 ∙ v.2,
)

-- Once the exit is seen it stays seen.
Flags-IsClosed : IsClosed (Flags true)
unfolding app_sink app_on_exit
Flags-IsClosed = record {
  frame_ok = λ s f i v. frame-Flags true s f v;
  exit_ok = λ s v.
      (app_on_exit v.0, ap (λ (t : Sink App). with_ctx t (notify t.on_exit t.ctx)) v.1, refl);
  query_ok = query-Flags true;
  keepalive_ok = keepalive-Flags true;
}

-- The sink is the tool's.
abbrev pub IsWired : Sink App → Type 0
IsWired s = (app : App) × (s ≡ app_sink app)

IsWired-IsClosed : IsClosed IsWired
unfolding app_sink
IsWired-IsClosed = record {
  frame_ok = λ s f i v.
      (app_on_frame v.0 f, ap (λ (t : Sink App). with_ctx t (deliver t.on_frame t.ctx f)) v.1);
  exit_ok =
      λ s v. (app_on_exit v.0, ap (λ (t : Sink App). with_ctx t (notify t.on_exit t.ctx)) v.1);
  query_ok =
      λ s v. (app_on_query v.0, ap (λ (t : Sink App). with_ctx t (notify t.on_query t.ctx)) v.1);
  keepalive_ok = λ s v.
      (app_on_keepalive v.0, ap (λ (t : Sink App). with_ctx t (notify t.on_keepalive t.ctx)) v.1);
}

pub wired-exit_seen :
    (s : Sink App) (app : App) → s ≡ app_sink app → s.ctx.exit_seen ≡ app.exit_seen
unfolding app_sink
wired-exit_seen s app e = ap (λ (t : Sink App). t.ctx.exit_seen) e

-- A parser that has not seen the exit after some bytes had not seen it before them.
not_left :
    (bytes : List ℕ) (p q : Parser App)
    → All IsByte bytes
    → IsValid p
    → IsWired p.sink
    → feed p bytes ≡ some q
    → q.sink.ctx.exit_seen ≡ false
    → p.sink.ctx.exit_seen ≡ false
not_left bytes p q hs i (app, wired) e stays = elim (Bool-cases p.sink.ctx.exit_seen) [
  | inl seen ↦
      let left =
        feed-kept Flags-IsClosed bytes p hs i
          (app, wired, sym (wired-exit_seen p.sink app wired) ∙ seen) e in
      let set = wired-exit_seen q.sink left.0 left.1 ∙ left.2 in cc
  | inr before ↦ before
]

-- A turn that reads bytes.
read_loop-got :
    (c : List ℕ) (rest : List (Bool × Read)) (p q : Parser App)
    → p.sink.ctx.exit_seen ≡ false
    → feed p c ≡ some q
    → read_loop false true ((false, got c) ∷ rest) p ≡ read_loop false true rest q
unfolding read_loop body take_read check_once
read_loop-got c rest p q stays fed =
    ap
      (λ b. elim b [
        | true ↦ some (stopped, p)
        | false ↦ body false true (got c) p >>= λ a. elim (is_running a.0) [
          | true ↦ read_loop false true rest a.1
          | false ↦ some a
        ]
      ])
      stays
    ∙ ap
        (λ o. ((o >>= λ r. some (running, r)) >>= λ a. some (check_once false a)) >>= λ a.
          elim (is_running a.0) [ true ↦ read_loop false true rest a.1 | false ↦ some a ])
        fed

read_loop-empty :
    (p : Parser App)
    → p.sink.ctx.exit_seen ≡ false
    → read_loop false true ((false, empty) ∷ []) p ≡ some (end_of_file, p)
unfolding read_loop body take_read check_once
read_loop-empty p stays = rw stays refl

-- If a valid parser with the tool's callbacks decodes the bytes of a file without a fault and
-- without seeing an exit, the loop without `--once` ends at the end of the file in the state of
-- that decoding, wherever the reads cut the file.
pub read_loop-turns :
    (chunks : List (List ℕ)) (p q : Parser App)
    → All IsByte (concat chunks)
    → IsValid p
    → IsWired p.sink
    → feed p (concat chunks) ≡ some q
    → q.sink.ctx.exit_seen ≡ false
    → read_loop false true (turns chunks) p ≡ some (end_of_file, q)
unfolding turns
read_loop-turns [] p q hs i wired e stays =
    let same : some p ≡ some q = unfold feed in e in
    read_loop-empty p (not_left [] p q tt i wired e stays)
    ∙ ap (λ o. o >>= λ r. some (end_of_file, r)) same
read_loop-turns (c ∷ cs) p q hs i wired e stays =
    let (p', fed, rest) = >>=-eq-some (feed p c) _ (sym (feed-append c (concat cs) p) ∙ e) in
    let (here, there) = All-parts IsByte c (concat cs) hs in
    read_loop-got c (turns cs) p p' (not_left (c ++ concat cs) p q hs i wired e stays) fed
    ∙ read_loop-turns cs p' q there (feed-IsValid c p here i fed)
        (feed-kept IsWired-IsClosed c p here i wired fed) rest stays
