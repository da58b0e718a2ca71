-- ===== src/Frame/Tests/Hostile.antt =====
-- A heightfield of 65534 by 32769 samples with intensities: the length that it needs is 12 in
-- 32 bits.
use vekterm.Base.{
  ℕ, ◌≡◌, refl, arith, true, false, none, some, List, [], ◌∷◌, ◌++◌, length, length-replicate,
  replicate, All, All-append, All-replicate,
}
use vekterm.Base.Int.{pos}
use vekterm.Frame.State.{Parser}
use vekterm.Frame.Beam.{init, rd_u16, rd_i16}
use vekterm.Frame.Parser.{feed, feed_byte, feed_payload, store_payload}
use vekterm.Frame.Ext.Heightfield.{Header, read_header, samples, need, dispatch_heightfield}
use vekterm.Frame.Ext.Dispatch.{dispatch_ext, dispatch_subtype}
use vekterm.Frame.Valid.{IsByte, IsValid}
use vekterm.Frame.Valid.Beam.{init-IsValid}
use vekterm.Frame.Picture.{Shown}
use vekterm.Frame.Refine.Client.{recorder}
use vekterm.Frame.Faults.Heightfield.{dispatch_heightfield_overread}
use vekterm.Frame.Faults.Feed.{IsHostile, feed_fault}

abbrev hostile_bytes : List ℕ
hostile_bytes = 1 ∷ 255 ∷ 254 ∷ 128 ∷ 1 ∷ 0 ∷ 0 ∷ 0 ∷ 0 ∷ 0 ∷ 0 ∷ 0 ∷ 0 ∷ 0 ∷ 0 ∷ 0 ∷ []

abbrev hostile_buf : List ℕ
hostile_buf = hostile_bytes ++ replicate 8176 0

abbrev hostile_header : Header
hostile_header = record {
  cols = 65534;
  rows = 32769;
  x0 = pos 0;
  x_step = pos 0;
  y0 = pos 0;
  y_step = pos 0;
  y_scale = 0;
  bright = 0;
  has_intensity = true;
  serpentine = false;
}

-- The parser when the last byte of the header is still to come.
abbrev attacked : Parser (List Shown)
attacked = record (init (recorder [])) {
  ext_subtype = 1;
  ext_remaining = 1;
  ext_len = 15;
  ext_buf = hostile_buf;
}

hostile_declared : read_header hostile_buf ≡ some hostile_header
unfolding read_header rd_u16 rd_i16
hostile_declared = refl

need-hostile_header : need hostile_header ≡ 12
unfolding need
need-hostile_header = refl

samples-hostile_header : samples hostile_header ≡ 2147483646
unfolding samples
samples-hostile_header = refl

length-hostile_buf : length hostile_buf ≡ 8192
length-hostile_buf = omega (arith, length-replicate {A = ℕ} 8176 0)

dispatch_heightfield_overread_example : dispatch_heightfield attacked hostile_buf 16 ≡ none
dispatch_heightfield_overread_example =
    dispatch_heightfield_overread attacked hostile_buf 16 hostile_header hostile_declared refl
      (omega arith) (omega arith) (omega arith) (omega (arith, need-hostile_header))
      (omega (arith, samples-hostile_header, length-hostile_buf))

hostile_buf-bytes : All IsByte hostile_buf
hostile_buf-bytes =
    All-append IsByte hostile_bytes (replicate 8176 0) (omega arith)
      (All-replicate IsByte 8176 0 (omega arith))

attacked-IsValid : IsValid attacked
unfolding init
attacked-IsValid =
    let fresh = init-IsValid (recorder []) in
    record {
      vectors = fresh.vectors;
      word_room = fresh.word_room;
      word_bytes_ok = fresh.word_bytes_ok;
      word_partial = fresh.word_partial;
      beam_x = fresh.beam_x;
      beam_y = fresh.beam_y;
      bright = fresh.bright;
      ext_room = length-hostile_buf;
      ext_bytes_ok = hostile_buf-bytes;
      ext_partial = omega arith;
    }

-- The parser when the payload is complete.
abbrev complete_payload : Parser (List Shown)
complete_payload = record attacked { ext_remaining = 0; ext_len = 16; ext_buf = hostile_buf }

store_payload-attacked : store_payload attacked 0 ≡ complete_payload
unfolding store_payload init
store_payload-attacked = refl

hostile-overread : (p : Parser (List Shown)) → dispatch_heightfield p hostile_buf 16 ≡ none
hostile-overread p =
    dispatch_heightfield_overread p hostile_buf 16 hostile_header hostile_declared refl
      (omega arith) (omega arith) (omega arith) (omega (arith, need-hostile_header))
      (omega (arith, samples-hostile_header, length-hostile_buf))

dispatch_ext-complete_payload : dispatch_ext complete_payload ≡ none
unfolding dispatch_ext dispatch_subtype init
dispatch_ext-complete_payload = rw (hostile-overread complete_payload) refl

-- The last byte of the payload completes the container.
feed-attacked : feed attacked (0 ∷ []) ≡ none
unfolding feed feed_byte feed_payload init
feed-attacked = rw (store_payload-attacked, dispatch_ext-complete_payload) refl

feed_fault_example :
    (pre : List ℕ) × (b : ℕ) × (rest : List ℕ) × (q : Parser (List Shown)) × (0 ∷ []
      ≡ pre ++ (b ∷ rest))
    × (feed attacked pre ≡ some q)
    × IsValid q
    × (q.ext_remaining ≡ 1)
    × IsHostile (store_payload q b)
feed_fault_example = feed_fault (0 ∷ []) attacked (omega arith) attacked-IsValid feed-attacked
