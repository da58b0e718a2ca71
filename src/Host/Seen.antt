-- ===== src/Host/Seen.antt =====
-- What the tool has printed of the frames that it was shown.
use vekterm.Base.{
  suc, length-append, ℕ, ◌+◌, ◌≤◌, ◌≡◌, refl, arith, true, false, if◌then◌else◌, Bool, List, [],
  ◌∷◌, ◌++◌, map, take, length, u64, ap, sym, ◌∙◌, length-take,
}
use mathlib.Core.List.{append-nil, append_assoc}
use vekterm.Base.Int.{ℤ}
use vekterm.Frame.State.{Segment, Frame, Sink}
use vekterm.Frame.Parser.{with_ctx, deliver, notify}
use vekterm.Frame.Picture.{Shown, view}
use vekterm.Frame.Refine.Client.{IsClient}
use vekterm.Host.Stub.{
  Options, Stub, Line, frame_line, vector_line, keepalive_line, selftest_line, stub_set_frame,
  frame_lines,
}
use vekterm.Host.App.{App, app_on_frame, app_on_exit, app_on_keepalive, app_sink, first_app}

-- The report of a list of frames, numbered from `n + 1`.
unfoldable pub report : Bool → ℕ → List Shown → List Line
report verbose n [] = []
report verbose n (sh ∷ shs) =
    frame_line (u64 (n + 1)) (length sh.vectors) sh.travel sh.overflow
    ∷ ((if verbose then map vector_line sh.vectors else []) ++ report verbose (n + 1) shs)

-- The lines on stdout that are not about keepalives.
unfoldable pub without_pings : List Line → List Line
without_pings [] = []
without_pings (keepalive_line ∷ ls) = without_pings ls
without_pings (frame_line n c t o ∷ ls) = frame_line n c t o ∷ without_pings ls
without_pings (vector_line s ∷ ls) = vector_line s ∷ without_pings ls
without_pings (selftest_line b n ∷ ls) = selftest_line b n ∷ without_pings ls

without_pings-append :
    (xs ys : List Line) → without_pings (xs ++ ys) ≡ without_pings xs ++ without_pings ys
unfolding without_pings
without_pings-append [] ys = refl
without_pings-append (keepalive_line ∷ ls) ys = without_pings-append ls ys
without_pings-append (frame_line n c t o ∷ ls) ys =
    ap (λ r. frame_line n c t o ∷ r) (without_pings-append ls ys)
without_pings-append (vector_line s ∷ ls) ys =
    ap (λ r. vector_line s ∷ r) (without_pings-append ls ys)
without_pings-append (selftest_line b n ∷ ls) ys =
    ap (λ r. selftest_line b n ∷ r) (without_pings-append ls ys)

without_pings-vectors :
    (ss : List Segment) → without_pings (map vector_line ss) ≡ map vector_line ss
unfolding without_pings
without_pings-vectors [] = refl
without_pings-vectors (s ∷ ss) = ap (λ r. vector_line s ∷ r) (without_pings-vectors ss)

report-append :
    (v : Bool) (n : ℕ) (xs ys : List Shown)
    → report v n (xs ++ ys) ≡ report v n xs ++ report v (n + length xs) ys
unfolding report
report-append v n [] ys = let e : n + 0 ≡ n = omega arith in rw e refl
report-append v n (x ∷ xs) ys =
    let e : n + suc (length xs) ≡ n + 1 + length xs = omega arith in
    let vs : List Line = if v then map vector_line x.vectors else [] in
    let head : Line = frame_line (u64 (n + 1)) (length x.vectors) x.travel x.overflow in
    ap (λ r. head ∷ (vs ++ r)) (report-append v (n + 1) xs ys)
    ∙ ap (λ r. head ∷ r)
        (sym (append_assoc vs (report v (n + 1) xs) (report v (n + 1 + length xs) ys)))
    ∙ ap (λ k. head ∷ ((vs ++ report v (n + 1) xs) ++ report v k ys)) (sym e)

without_pings-detail :
    (b : Bool) (ss : List Segment)
    → without_pings (if b then map vector_line ss else []) ≡ (if b then map vector_line ss else [])
unfolding without_pings
without_pings-detail true ss = without_pings-vectors ss
without_pings-detail false ss = refl

-- What holds of the tool's state when it has seen these frames.
pub record Seen (opt : Options) (app : App) (out : List Shown) : Type 0 where
  pub options : app.backend_ctx.opt ≡ opt
  pub counted : app.frames ≡ u64 (length out)
  pub numbered : app.backend_ctx.frames ≡ u64 (length out)
  pub printed : without_pings app.stdout ≡ report opt.verbose 0 out

-- The same of the sink.
abbrev pub Watches : Options → Sink App → List Shown → Type 0
Watches opt s out = (app : App) × (s ≡ app_sink app) × Seen opt app out

pub first_app-Seen : (stub : Stub) (fd : ℤ) → stub.frames ≡ 0 → Seen stub.opt (first_app stub fd) []
unfolding report without_pings
first_app-Seen stub fd h = record { options = refl; counted = refl; numbered = h; printed = refl }

lines-view :
    (opt : Options) (n : ℕ) (f : Frame)
    → f.count ≤ length f.segments
    → without_pings (frame_lines opt (u64 (n + 1)) f) ≡ report opt.verbose n (view f ∷ [])
unfolding report without_pings frame_lines
lines-view opt n f h =
    let vs : List Line = if opt.verbose then map vector_line (take f.count f.segments) else [] in
    ap (λ r. frame_line (u64 (n + 1)) f.count f.total_length f.overflow ∷ r)
      (without_pings-detail opt.verbose (take f.count f.segments) ∙ sym (append-nil vs))
    ∙ ap (λ c. frame_line (u64 (n + 1)) c f.total_length f.overflow ∷ (vs ++ []))
        (sym (length-take f.count f.segments h))

app_on_frame-Seen :
    (opt : Options) (app : App) (out : List Shown) (f : Frame)
    → f.count ≤ length f.segments
    → Seen opt app out
    → Seen opt (app_on_frame app f) (out ++ (view f ∷ []))
unfolding app_on_frame stub_set_frame
app_on_frame-Seen opt app out f h v =
    let longer = length-append out (view f ∷ []) in
    let n : u64 (app.backend_ctx.frames + 1) ≡ u64 (length out + 1) = omega (arith, v.numbered) in
    let here : ◌≡◌ {A = ℕ} (0 + length out) (length out) = omega arith in
    record {
      options = v.options;
      counted = omega (arith, v.counted, longer);
      numbered = omega (arith, v.numbered, longer);
      printed =
          without_pings-append app.stdout _
          ∙ ap
              (λ r.
                r
                ++ without_pings
                    (frame_lines app.backend_ctx.opt (u64 (app.backend_ctx.frames + 1)) f))
              v.printed
          ∙ ap
              (λ o.
                report opt.verbose 0 out
                ++ without_pings (frame_lines o (u64 (app.backend_ctx.frames + 1)) f))
              v.options
          ∙ ap (λ k. report opt.verbose 0 out ++ without_pings (frame_lines opt k f)) n
          ∙ ap (λ r. report opt.verbose 0 out ++ r) (lines-view opt (length out) f h)
          ∙ ap (λ k. report opt.verbose 0 out ++ report opt.verbose k (view f ∷ [])) (sym here)
          ∙ sym (report-append opt.verbose 0 out (view f ∷ []));
    }

app_on_keepalive-Seen :
    (opt : Options) (app : App) (out : List Shown)
    → Seen opt app out
    → Seen opt (app_on_keepalive app) out
unfolding app_on_keepalive without_pings
app_on_keepalive-Seen opt app out v = record {
  options = v.options;
  counted = v.counted;
  numbered = v.numbered;
  printed =
      without_pings-append app.stdout (keepalive_line ∷ [])
      ∙ append-nil (without_pings app.stdout)
      ∙ v.printed;
}

-- The tool is a client that has reported what it has seen.
pub app-IsClient : (opt : Options) → IsClient (Watches opt)
unfolding app_sink app_on_exit
app-IsClient opt = record {
  sees = λ s out f h k v. (
    app_on_frame v.0 f,
    ap (λ (t : Sink App). with_ctx t (deliver t.on_frame t.ctx f)) v.1,
    app_on_frame-Seen opt v.0 out f h v.2,
  );
  leaves = λ s out v. (
    app_on_exit v.0,
    ap (λ (t : Sink App). with_ctx t (notify t.on_exit t.ctx)) v.1,
    let seen = v.2 in
        record {
          options = seen.options;
          counted = seen.counted;
          numbered = seen.numbered;
          printed = seen.printed;
        },
  );
  pings = λ s out e v. (
    app_on_keepalive v.0,
    ap (λ (t : Sink App). with_ctx t (notify t.on_keepalive t.ctx)) v.1,
    app_on_keepalive-Seen opt v.0 out v.2,
  );
}
