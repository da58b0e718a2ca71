-- ===== src/Frame/Faults/Heightfield.antt =====
-- A heightfield whose declared length is computed without a wrap is drawn without a fault, and an
-- intensity heightfield whose declared length wraps reads past the buffer.
use vekterm.Base.{
  ℕ, zero, suc, ◌+◌, ◌*◌, ◌^◌, ◌≤◌, ◌<◌, ◌≡◌, arith, true, false, Bool-cases, inl, inr, List, none,
  some, length, get_elem?_total, IsDefined, IsDefined-some, >>=-IsDefined, ◌==◌, get_elem?-past,
  if◌then◌else◌, ltb, ltb→lt,
}
use vekterm.Frame.State.{Parser}
use vekterm.Frame.Ext.Heightfield.{
  Header, read_header, samples, need, Run, fresh, column, index, sample_z, lit, point, columns,
  scan, dispatch_heightfield,
}
use vekterm.Frame.Faults.Readers.{heightfield_header_total}

-- The bytes that the samples of a heightfield take, with their intensities.
abbrev pub extent : Header → ℕ
extent h = 16 + h.cols * h.rows + (if h.has_intensity then h.cols * h.rows else 0)

record IsSmall (h : Header) : Type 0 where
  cols_small : h.cols < 65536
  rows_small : h.rows < 65536

module _ (h : Header) (small : IsSmall h) where
  samples-exact : samples h ≡ h.cols * h.rows
  unfolding samples
  samples-exact = let p : h.cols * h.rows ≤ 65535 * 65535 = grind arith in omega arith

  column-lt : (r k : ℕ) → k < h.cols → column h r k < h.cols
  unfolding column
  column-lt r k hk = ground (arith, small.cols_small)

  index-lt : (r c : ℕ) → r < h.rows → c < h.cols → index h r c < h.cols * h.rows
  unfolding index
  index-lt r c hr hc =
      let p : r * h.cols + c < h.cols * h.rows = grind arith in
      let q : h.cols * h.rows ≤ 65535 * 65535 = grind (arith, small.cols_small, small.rows_small) in
      omega arith

  module _ (buf : List ℕ) (room : extent h ≤ length buf) where
    sample_z-IsDefined : (idx : ℕ) → idx < h.cols * h.rows → IsDefined (sample_z h buf idx)
    unfolding sample_z
    sample_z-IsDefined idx hi = elim (Bool-cases h.has_intensity) [
      | inl own ↦
          let (z, e) = get_elem?_total buf (16 + samples h + idx) (ground (arith, samples-exact)) in
          IsDefined-some _ {a = z} (ground arith)
      | inr shared ↦ IsDefined-some _ {a = h.bright} (ground arith)
    ]

module _ {C : Type 0} (h : Header) (small : IsSmall h) (buf : List ℕ) where
  lit-IsDefined :
      (r c idx z : ℕ) (run : Run C)
      → extent h ≤ length buf
      → idx < h.cols * h.rows
      → IsDefined (lit h buf r c idx z run)
  unfolding lit
  lit-IsDefined r c idx z run room hi =
      let (d, e) = get_elem?_total buf (16 + idx) (omega arith) in rw e tt

  point-IsDefined :
      (r k : ℕ) (run : Run C)
      → extent h ≤ length buf
      → r < h.rows
      → k < h.cols
      → IsDefined (point h buf r k run)
  unfolding point
  point-IsDefined r k run room hr hk =
      let c : ℕ = column h r k in
      let inside = index-lt h small r c hr (column-lt h small r k hk) in
      >>=-IsDefined (sample_z h buf (index h r c)) _
        (sample_z-IsDefined h small buf room (index h r c) inside)
        λ z e.
          elim (z == 0)
            as (λ b. IsDefined (
              if b
              then some (record run { have = false })
              else lit h buf r c (index h r c) z run)) [
                | true ↦ tt
                | false ↦ lit-IsDefined r c (index h r c) z run room inside
              ]

  columns-IsDefined :
      (r left k : ℕ) (run : Run C)
      → extent h ≤ length buf
      → r < h.rows
      → k + left ≡ h.cols
      → IsDefined (columns h buf r left k run)
  unfolding columns
  columns-IsDefined r zero k run room hr e = tt
  columns-IsDefined r (suc left) k run room hr e =
      >>=-IsDefined (point h buf r k run) _ (point-IsDefined r k run room hr (omega arith))
        λ run' step. columns-IsDefined r left (k + 1) run' room hr (omega arith)

  scan-IsDefined :
      (left r : ℕ) (p : Parser C)
      → extent h ≤ length buf
      → r + left ≡ h.rows
      → IsDefined (scan h buf left r p)
  unfolding scan
  scan-IsDefined zero r p room e = tt
  scan-IsDefined (suc left) r p room e =
      >>=-IsDefined (columns h buf r h.cols 0 (fresh p)) _
        (columns-IsDefined r h.cols 0 (fresh p) room (omega arith) (omega arith))
        λ run row. scan-IsDefined left (r + 1) run.parser room (omega arith)

-- The header of the payload declares intensities, and so many samples that the length that it
-- needs does not fit 32 bits.
pub record Wraps (buf : List ℕ) : Type 0 where
  pub header : Header
  pub declared : read_header buf ≡ some header
  pub own : header.has_intensity ≡ true
  pub large : 2 ^ 32 ≤ extent header

need-exact : (h : Header) → IsSmall h → extent h < 2 ^ 32 → need h ≡ extent h
unfolding need
need-exact h small fits = ground (arith, samples-exact h small)

extent_bound : (h : Header) → IsSmall h → h.has_intensity ≡ false → extent h < 2 ^ 32
extent_bound h small shared =
    let p : h.cols * h.rows ≤ 65535 * 65535 = grind (arith, small.cols_small, small.rows_small) in
    rw shared (omega arith)

dispatch_heightfield-IsDefined :
    {C : Type 0} (h : Header) (p : Parser C) (buf : List ℕ) (len : ℕ)
    → IsSmall h
    → read_header buf ≡ some h
    → extent h < 2 ^ 32
    → len ≤ length buf
    → IsDefined (dispatch_heightfield p buf len)
unfolding dispatch_heightfield
dispatch_heightfield-IsDefined h p buf len small header fits room =
    elim (Bool-cases (ltb len (need h))) [
      | inl short ↦ ground arith
      | inr enough ↦
          let drawn =
            scan-IsDefined h small buf h.rows 0 p (ground (arith, need-exact h small))
              (omega arith) in
          ground arith
    ]

-- The expander reads past a buffer only at a header whose declared length wraps.
pub dispatch_heightfield_fault :
    {C : Type 0} (p : Parser C) (buf : List ℕ) (len : ℕ)
    → 16 ≤ length buf
    → len ≤ length buf
    → dispatch_heightfield p buf len ≡ none
    → Wraps buf
dispatch_heightfield_fault p buf len long room e =
    let (h, header, cols_small, rows_small) = heightfield_header_total buf long in
    let small : IsSmall h = record { cols_small = cols_small; rows_small = rows_small } in
    elim (Bool-cases (ltb (extent h) (2 ^ 32))) [
      | inl fits ↦
          let drawn =
            dispatch_heightfield-IsDefined h p buf len small header (ltb→lt _ _ fits) room in
          absurd (rw e at drawn)
      | inr wraps ↦ elim (Bool-cases h.has_intensity) [
        | inl own ↦ record { header = h; declared = header; own = own; large = ground arith }
        | inr shared ↦ absurd (ground (arith, extent_bound h small shared))
      ]
    ]

module _ {C : Type 0} (h : Header) (buf : List ℕ) (own : h.has_intensity ≡ true)
    (short : length buf ≤ 16 + samples h) where
  first-point : (run : Run C) → point h buf 0 0 run ≡ none
  unfolding point sample_z column index
  first-point run = ground (arith, get_elem?-past buf (16 + samples h + 0))

  first-columns : (left : ℕ) (run : Run C) → 0 < left → columns h buf 0 left 0 run ≡ none
  unfolding columns
  first-columns zero run some_left = absurd (omega arith)
  first-columns (suc left) run some_left = rw (first-point run)

  first-scan : (left : ℕ) (p : Parser C) → 0 < h.cols → 0 < left → scan h buf left 0 p ≡ none
  unfolding scan
  first-scan zero p cols some_left = absurd (omega arith)
  first-scan (suc left) p cols some_left = rw (first-columns h.cols (fresh p) cols)

-- The heightfield expander reads past the buffer at a header with intensities and at least one
-- sample, if the payload is as long as the needed length that is computed in 32 bits and the first
-- intensity lies past the buffer.
pub dispatch_heightfield_overread :
    {C : Type 0} (p : Parser C) (buf : List ℕ) (len : ℕ) (h : Header)
    → read_header buf ≡ some h
    → h.has_intensity ≡ true
    → 0 < h.cols
    → 0 < h.rows
    → 16 ≤ len
    → need h ≤ len
    → length buf ≤ 16 + samples h
    → dispatch_heightfield p buf len ≡ none
unfolding dispatch_heightfield
dispatch_heightfield_overread p buf len h header own cols rows long enough short =
    ground (arith, first-scan h buf own short h.rows p cols rows)
