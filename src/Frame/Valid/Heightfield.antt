-- ===== src/Frame/Valid/Heightfield.antt =====
-- A heightfield payload keeps a parser valid.
use vekterm.Base.{
  ℕ, zero, suc, ◌+◌, ◌≤◌, ◌<◌, ◌≡◌, arith, Option-cases, >>=-eq-some, inl, inr, List, some,
  get_elem?, All,
}
use vekterm.Frame.State.{Parser}
use vekterm.Frame.Ext.Heightfield.{
  Header, read_header, samples, Run, fresh, column, index, sample_z, sample_x, sample_y, lit, point,
  columns, scan, dispatch_heightfield,
}
use vekterm.Frame.Valid.{IsByte, byte_at-lt, IsValid}
use vekterm.Frame.Valid.Beam.{clamp_dev_int-le, add_segment-IsValid}

read_header-bright :
    (buf : List ℕ) {h : Header} → All IsByte buf → read_header buf ≡ some h → h.bright < 256
unfolding read_header
read_header-bright buf {h} bytes e = ground (arith, byte_at-lt buf 15 h.bright bytes)

sample_z-lt :
    (h : Header) (buf : List ℕ) (idx : ℕ) {z : ℕ}
    → All IsByte buf
    → h.bright < 256
    → sample_z h buf idx ≡ some z
    → z < 256
unfolding sample_z
sample_z-lt h buf idx {z} bytes bright e =
    ground (arith, byte_at-lt buf (16 + samples h + idx) z bytes)

sample_x-le : (h : Header) (c : ℕ) → sample_x h c ≤ 4095
unfolding sample_x
sample_x-le h c = clamp_dev_int-le _

sample_y-le : (h : Header) (r d : ℕ) → sample_y h r d ≤ 4095
unfolding sample_y
sample_y-le h r d = clamp_dev_int-le _

pub record IsRun {C : Type 0} (run : Run C) : Type 0 where
  pub valid : IsValid run.parser
  pub px_in : run.px ≤ 4095
  pub py_in : run.py ≤ 4095

module _ {C : Type 0} (h : Header) (buf : List ℕ) where
  lit-IsRun :
      (r c idx z : ℕ) (run : Run C) {out : Run C}
      → IsRun run
      → z < 256
      → lit h buf r c idx z run ≡ some out
      → IsRun out
  unfolding lit
  lit-IsRun r c idx z run v hz e = elim (Option-cases (get_elem? buf (16 + idx))) [
    | inl no_sample ↦ cc
    | inr (d, sample) ↦
        let x = sample_x-le h c in
        let y = sample_y-le h r d in
        let added =
          add_segment-IsValid run.px run.py (sample_x h c) (sample_y h r d) z v.valid v.px_in
            v.py_in x y hz in
        ground arith
  ]

  point-IsRun :
      (r k : ℕ) (run : Run C) {out : Run C}
      → All IsByte buf
      → h.bright < 256
      → IsRun run
      → point h buf r k run ≡ some out
      → IsRun out
  unfolding point
  point-IsRun r k run {out} bytes bright v e =
      elim (Option-cases (sample_z h buf (index h r (column h r k)))) [
        | inl no_sample ↦ cc
        | inr (z, sample) ↦
            let small = sample_z-lt h buf (index h r (column h r k)) bytes bright sample in
            ground (
              arith,
              lit-IsRun r (column h r k) (index h r (column h r k)) z run {out = out} v small,
            )
      ]

  columns-IsRun :
      (r left k : ℕ) (run : Run C) {out : Run C}
      → All IsByte buf
      → h.bright < 256
      → IsRun run
      → columns h buf r left k run ≡ some out
      → IsRun out
  unfolding columns
  columns-IsRun r zero k run bytes bright v e = ground arith
  columns-IsRun r (suc left) k run bytes bright v e =
      let (run', step, rest) =
        >>=-eq-some (point h buf r k run) (λ run'. columns h buf r left (k + 1) run') e in
      columns-IsRun r left (k + 1) run' bytes bright (point-IsRun r k run bytes bright v step) rest

  scan-IsValid :
      (left r : ℕ) (p : Parser C) {out : Parser C}
      → All IsByte buf
      → h.bright < 256
      → IsValid p
      → scan h buf left r p ≡ some out
      → IsValid out
  unfolding scan
  scan-IsValid zero r p bytes bright v e = ground arith
  scan-IsValid (suc left) r p bytes bright v e =
      let (run, row, rest) =
        >>=-eq-some (columns h buf r h.cols 0 (fresh p)) (λ run. scan h buf left (r + 1) run.parser)
          e in
      let v' =
        columns-IsRun r h.cols 0 (fresh p) bytes bright
          (record { valid = v; px_in = omega arith; py_in = omega arith }) row in
      scan-IsValid left (r + 1) run.parser bytes bright v'.valid rest

-- A heightfield that is drawn without a fault leaves the parser valid.
pub dispatch_heightfield-IsValid :
    {C : Type 0} (p : Parser C) (buf : List ℕ) (len : ℕ) {out : Parser C}
    → All IsByte buf
    → IsValid p
    → dispatch_heightfield p buf len ≡ some out
    → IsValid out
unfolding dispatch_heightfield
dispatch_heightfield-IsValid p buf len {out} bytes v e = elim (Option-cases (read_header buf)) [
  | inl no_header ↦ ground arith
  | inr (h, header) ↦ ground (
    arith,
    read_header-bright buf {h = h} bytes header,
    scan-IsValid h buf h.rows 0 p {out = out} bytes (read_header-bright buf bytes header) v,
  )
]
