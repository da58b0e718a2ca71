-- ===== src/Emu/Inside.antt =====
-- The drawing of a line ends, at its end, and stays inside the framebuffer.
use vekterm.Base.{
  ℕ, zero, suc, ◌+◌, ◌*◌, ◌/◌, ◌^◌, ◌<◌, ◌≡◌, refl, arith, Bool, true, false, Option, none, some,
  if◌then◌else◌, set, length, length-set, get_elem?_total, ◌>>=◌, All, All-set, Bool-cases, inl,
  inr, ap, ◌∙◌,
}
use native.Mathlib.Nat.{mul-le-mul_right, mul_comm}
use vekterm.Base.Int.{ℤ, pos, ◌+ℤ◌, ◌-ℤ◌, pos_part, -ℤ_parts}
use vekterm.Emu.Raster.{
  Screen, Course, Cursor, is_off, capped, px_add, plot, is_end, step, step_fits, glow_fits, walk,
  line_between, draw_line,
}
use vekterm.Emu.Fits.{
  IsNear, IsShort, IsBounded, distance-lt, on_way-IsAround, glow_fits-true, step-IsBounded,
  step_fits-true, line_fits-true,
}
use vekterm.Emu.Ends.{IsOnWay, step-IsOnWay, on_way, distance-Ahead}

-- A framebuffer of its size, of bytes.
pub record IsScreen (w h : ℕ) (s : Screen) : Type 0 where
  pub width : s.width ≡ w
  pub height : s.height ≡ h
  pub room : length s.fb ≡ w * h
  pub bytes : All (λ (v : ℕ). v < 256) s.fb

on_screen : (x y w h : ℕ) → x < w → y < h → y * w + x < w * h
on_screen x y w h hx hy = let rows = mul-le-mul_right w hy in omega (arith, rows, mul_comm w h)

px_add-IsScreen :
    (w h : ℕ) (s : Screen) (x y : ℤ) (v : ℕ)
    → IsScreen w h s
    → (t : Screen) × (px_add s x y v ≡ some t) × IsScreen w h t
unfolding px_add
px_add-IsScreen w h s x y v k = elim (Bool-cases (is_off s x y)) [
  | inl off ↦ (s, rw off refl, k)
  | inr on ↦
      let i = pos_part y * s.width + pos_part x in
      let in_x : pos_part x < s.width = ground arith in
      let in_y : pos_part y < s.height = ground arith in
      let inside : i < length s.fb = omega (
        arith,
        on_screen (pos_part x) (pos_part y) s.width s.height in_x in_y,
        k.room,
        ap (λ n. n * s.height) k.width,
        ap (λ n. w * n) k.height,
      ) in
      let (p, got) = get_elem?_total s.fb i inside in
      (
        record s { fb = set s.fb i (capped (p + v)) },
        rw (on, got) refl,
        record {
          width = k.width;
          height = k.height;
          room = length-set s.fb i _ ∙ k.room;
          bytes = All-set _ s.fb i _ k.bytes (ground arith);
        },
      )
]

module _ (w h : ℕ) where
  plot-IsScreen :
      (x y : ℤ) (z : ℕ) (s : Screen)
      → glow_fits x y ≡ true
      → IsScreen w h s
      → (t : Screen) × (plot x y z s ≡ some t) × IsScreen w h t
  unfolding plot
  plot-IsScreen x y z s fits k =
      let core = px_add-IsScreen w h s x y (capped (120 + z)) k in
      let (a, got_a, k_a) = core in
      let (b, got_b, k_b) = px_add-IsScreen w h a (x +ℤ pos 1) y (z / 3) k_a in
      let (c, got_c, k_c) = px_add-IsScreen w h b (x -ℤ pos 1) y (z / 3) k_b in
      let (d, got_d, k_d) = px_add-IsScreen w h c x (y +ℤ pos 1) (z / 3) k_c in
      let (e, got_e, k_e) = px_add-IsScreen w h d x (y -ℤ pos 1) (z / 3) k_d in
      (
        e,
        ap
              (λ b.
                if b
                then (px_add s x y (capped (120 + z)) >>= λ a.
                    px_add a (x +ℤ pos 1) y (z / 3) >>= λ b.
                    px_add b (x -ℤ pos 1) y (z / 3) >>= λ c.
                    px_add c x (y +ℤ pos 1) (z / 3) >>= λ d. px_add d x (y -ℤ pos 1) (z / 3))
                else none)
              fits
            ∙ ap
                (λ o. o >>= λ a. px_add a (x +ℤ pos 1) y (z / 3) >>= λ b.
                  px_add b (x -ℤ pos 1) y (z / 3) >>= λ c.
                  px_add c x (y +ℤ pos 1) (z / 3) >>= λ d. px_add d x (y -ℤ pos 1) (z / 3))
                got_a
            ∙ ap
                (λ o. o >>= λ b. px_add b (x -ℤ pos 1) y (z / 3) >>= λ c.
                  px_add c x (y +ℤ pos 1) (z / 3) >>= λ d. px_add d x (y -ℤ pos 1) (z / 3))
                got_b
            ∙ ap
                (λ o. o >>= λ c.
                  px_add c x (y +ℤ pos 1) (z / 3) >>= λ d. px_add d x (y -ℤ pos 1) (z / 3))
                got_c
            ∙ ap (λ o. o >>= λ d. px_add d x (y -ℤ pos 1) (z / 3)) got_d
            ∙ got_e,
        k_e,
      )

  walk-IsScreen :
      (l : Course) (n p q : ℕ) (c : Cursor) (s : Screen)
      → IsShort l
      → IsOnWay l p q c
      → IsBounded l c
      → p + q < n
      → IsScreen w h s
      → (t : Screen) × (walk l n c s ≡ some t) × IsScreen w h t
  unfolding walk
  walk-IsScreen l zero p q c s short v b enough k = absurd (omega arith)
  walk-IsScreen l (suc n) p q c s short v b enough k =
      let (in_x, in_y) = on_way-IsAround l short p q c v in
      let (t, plotted, k') = plot-IsScreen c.x c.y l.z s (glow_fits-true c.x c.y in_x in_y) k in
      let further : Bool → Screen → Option Screen =
        λ b u. elim b as (λ _. Option Screen) [ true ↦ walk l n (step l c) u | false ↦ none ] in
      let next : Bool → Option Screen =
        λ b. elim b as (λ _. Option Screen) [ true ↦ some t | false ↦ further (step_fits l c) t ] in
      let first =
        ap
          (λ o. o >>= λ u. elim (is_end l c) as (λ _. Option Screen) [
            | true ↦ some u
            | false ↦ further (step_fits l c) u
          ])
          plotted in
      elim (Bool-cases (is_end l c)) [
        | inl done ↦ (t, first ∙ ap next done, k')
        | inr more ↦
            let (p', q', v', nearer) = step-IsOnWay l p q c v (on_way l p q c v more) in
            let b' = step-IsBounded l short c b in
            let (u, walked, k'') =
              walk-IsScreen l n p' q' (step l c) t short v' b' (omega arith) k' in
            (
              u,
              first
                  ∙ ap next more
                  ∙ ap (λ b. further b t) (step_fits-true l short p q c v b)
                  ∙ walked,
              k'',
            )
      ]

-- Between any two pixels, on the screen or off it, whose coordinates are less than 2 ^ 28 above or
-- below 0, and with a brightness below 2 ^ 30, no `int` of `draw_line` overflows and its loop ends at the second pixel within as many
-- steps as the two distances together; it never reads or writes outside of the framebuffer, and
-- leaves it its size and its values bytes.
pub draw_line-IsScreen :
    (x0 y0 x1 y1 : ℤ) (z w h : ℕ) (s : Screen)
    → IsNear x0
    → IsNear y0
    → IsNear x1
    → IsNear y1
    → z < 2 ^ 30
    → IsScreen w h s
    → (t : Screen) × (draw_line x0 y0 x1 y1 z s ≡ some t) × IsScreen w h t
unfolding draw_line
draw_line-IsScreen x0 y0 x1 y1 z w h s near_x0 near_y0 near_x1 near_y1 dim k =
    let l = line_between x0 y0 x1 y1 z in
    let c : Cursor = record { x = x0; y = y0; err = pos l.dx -ℤ pos l.dy } in
    let start : IsOnWay l l.dx l.dy c = record {
      in_x = distance-Ahead x0 x1;
      in_y = distance-Ahead y0 y1;
      less_x = omega arith;
      less_y = omega arith;
      error = omega (arith, -ℤ_parts (pos l.dx) (pos l.dy), mul_comm l.dx l.dy);
    } in
    let short : IsShort l = record {
      short_x = distance-lt x0 x1 near_x0 near_x1;
      short_y = distance-lt y0 y1 near_y0 near_y1;
      end_x = near_x1;
      end_y = near_y1;
    } in
    let bounded : IsBounded l c = record {
      most = omega (arith, -ℤ_parts (pos l.dx) (pos l.dy));
      least = omega (arith, -ℤ_parts (pos l.dx) (pos l.dy));
    } in
    let (t, walked, k') =
      walk-IsScreen w h l (l.dx + l.dy + 1) l.dx l.dy c s short start bounded (omega arith) k in
    (
      t,
      ap (λ b. if b then walk l (l.dx + l.dy + 1) c s else none)
            (line_fits-true x0 y0 x1 y1 z near_x0 near_y0 near_x1 near_y1 dim)
          ∙ walked,
      k',
    )
