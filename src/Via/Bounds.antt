-- ===== src/Via/Bounds.antt =====
-- The bound on the beam of the VIA's model, and that a ramp keeps it.
use native.Mathlib.Nat.{mul-le-mul_right}
use vekterm.Base.{
  ℕ, ◌+◌, ◌*◌, ◌<◌, ◌≤◌, arith, Bool, true, false, List, [], ◌∷◌, ◌++◌, All, All-append,
  if◌then◌else◌, Bool-cases, inl, inr,
}
use vekterm.Base.Int.{ℤ, pos, ◌+ℤ◌, ◌*ℤ◌, pos_part, neg_part}
use vekterm.Via.State.{Via, Lit, is_lit, lit_line, commit_ramp}

-- At most `b` from the centre.
abbrev pub Within : ℕ → ℤ → Type 0
Within b z = (pos_part z ≤ b) × (neg_part z ≤ b)

-- The farthest that a ramp takes the beam.
abbrev pub reach : ℕ → ℕ
reach dif = 128 * (65535 + dif)

-- A line of a brightness that the z axis can take, within the bound.
pub record IsLine (b : ℕ) (l : Lit) : Type 0 where
  pub from_x : Within b l.x0
  pub from_y : Within b l.y0
  pub to_x : Within b l.x1
  pub to_y : Within b l.y1
  pub dim : 0 < l.z
  pub bright : l.z < 128

-- What a state that only bytes have been written to has, its beam within the bound.
pub record IsBounded (dif b : ℕ) (v : Via) : Type 0 where
  pub bytes : (i : ℕ) → v.via i < 256
  pub beam_x : Within b v.beam_x
  pub beam_y : Within b v.beam_y
  pub dac : Within 128 v.dac
  pub x_rate : Within 128 v.x_rate
  pub y_rate : Within 128 v.y_rate
  pub a_xrate : Within 128 v.a_xrate
  pub a_yrate : Within 128 v.a_yrate
  pub a_ticks : v.a_ticks ≤ 65535 + dif
  pub lines : All (IsLine b) v.lines

ramp-Within : (r : ℤ) (t dif : ℕ) → Within 128 r → t ≤ 65535 + dif → Within (reach dif) (r *ℤ pos t)
unfolding ◌*ℤ◌
ramp-Within r t dif h k =
    let up = mul-le-mul_right t h.0 in let down = mul-le-mul_right t h.1 in ground arith

sum-Within : (a b : ℤ) (n m : ℕ) → Within n a → Within m b → Within (n + m) (a +ℤ b)
unfolding ◌+ℤ◌
sum-Within a b n m h k = ground arith

wider-Within : (n m : ℕ) (z : ℤ) → n ≤ m → Within n z → Within m z
wider-Within n m z h k = omega arith

module _ (dif : ℕ) where
  All-IsLine_wider : (n m : ℕ) (ls : List Lit) → n ≤ m → All (IsLine n) ls → All (IsLine m) ls
  All-IsLine_wider n m [] h ok = tt
  All-IsLine_wider n m (l ∷ ls) h ok = (
    record {
      from_x = wider-Within n m l.x0 h ok.0.from_x;
      from_y = wider-Within n m l.y0 h ok.0.from_y;
      to_x = wider-Within n m l.x1 h ok.0.to_x;
      to_y = wider-Within n m l.y1 h ok.0.to_y;
      dim = ok.0.dim;
      bright = ok.0.bright;
    },
    All-IsLine_wider n m ls h ok.1,
  )

  pub wider-IsBounded : (n m : ℕ) (v : Via) → n ≤ m → IsBounded dif n v → IsBounded dif m v
  wider-IsBounded n m v h i = record {
    bytes = i.bytes;
    beam_x = wider-Within n m v.beam_x h i.beam_x;
    beam_y = wider-Within n m v.beam_y h i.beam_y;
    dac = i.dac;
    x_rate = i.x_rate;
    y_rate = i.y_rate;
    a_xrate = i.a_xrate;
    a_yrate = i.a_yrate;
    a_ticks = i.a_ticks;
    lines = All-IsLine_wider n m v.lines h i.lines;
  }

  lines-commit :
      (b : ℕ) (v : Via)
      → IsBounded dif b v
      → All (IsLine (b + reach dif)) (if is_lit v then v.lines ++ (lit_line v ∷ []) else v.lines)
  lines-commit b v i =
      let old = All-IsLine_wider b (b + reach dif) v.lines (omega arith) i.lines in
      elim (Bool-cases (is_lit v)) [
        | inl lit ↦
            let x =
              sum-Within v.beam_x _ b (reach dif) i.beam_x
                (ramp-Within v.a_xrate v.a_ticks dif i.a_xrate i.a_ticks) in
            let y =
              sum-Within v.beam_y _ b (reach dif) i.beam_y
                (ramp-Within v.a_yrate v.a_ticks dif i.a_yrate i.a_ticks) in
            let line : IsLine (b + reach dif) (lit_line v) = record {
              from_x = wider-Within b _ v.beam_x (omega arith) i.beam_x;
              from_y = wider-Within b _ v.beam_y (omega arith) i.beam_y;
              to_x = x;
              to_y = y;
              dim = ground arith;
              bright = omega arith;
            } in
            rw lit (All-append (IsLine (b + reach dif)) v.lines (lit_line v ∷ []) old (line, tt))
        | inr unlit ↦ rw unlit old
      ]

  pub if-IsBounded :
      (b : ℕ) (c : Bool) (x y : Via)
      → IsBounded dif b x
      → IsBounded dif b y
      → IsBounded dif b (if c then x else y)
  if-IsBounded b true x y h k = h
  if-IsBounded b false x y h k = k

  pub commit_ramp-IsBounded :
      (b : ℕ) (v : Via) → IsBounded dif b v → IsBounded dif (b + reach dif) (commit_ramp v)
  unfolding commit_ramp
  commit_ramp-IsBounded b v i =
      if-IsBounded (b + reach dif) v.armed _ v
        (record {
          bytes = i.bytes;
          beam_x =
              sum-Within v.beam_x _ b (reach dif) i.beam_x
                (ramp-Within v.a_xrate v.a_ticks dif i.a_xrate i.a_ticks);
          beam_y =
              sum-Within v.beam_y _ b (reach dif) i.beam_y
                (ramp-Within v.a_yrate v.a_ticks dif i.a_yrate i.a_ticks);
          dac = i.dac;
          x_rate = i.x_rate;
          y_rate = i.y_rate;
          a_xrate = i.a_xrate;
          a_yrate = i.a_yrate;
          a_ticks = i.a_ticks;
          lines = lines-commit b v i;
        })
        (wider-IsBounded b (b + reach dif) v (omega arith) i)
