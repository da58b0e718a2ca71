-- ===== src/Receiver/Reply.antt =====
-- src/vekterm_baremetal.c, `send_sync_reply`: the signal that the next frame may come.
use vekterm.Base.{
  ℕ, Bool, Bool-cases, inl, inr, Option, none, some, ◌+◌, ◌*◌, ◌≡◌, arith, List, [], ◌∷◌, map, ltb,
  if◌then◌else◌, bit_or, u8, shr, low_bits, refl, true, false,
}
use Prim.Native.Nat.{min}
use vekterm.Base.Int.{ℤ, pos, pos_part, ltb_ℤ}
use vekterm.Receiver.State.{sync_byte, sync_flag_overflow, sync_flag_idle, write, Globals, emit}

-- `us` and `vc`
abbrev pub saturate : ℕ → ℕ
saturate n = if ltb 0xFFFF n then 0xFFFF else n

unfoldable pub vector_count : ℤ → ℕ
vector_count vectors = if ltb_ℤ vectors (pos 0) then 0 else saturate (pos_part vectors)

-- `rec`
unfoldable pub sync_record : ℕ → ℤ → ℕ → List ℕ
unfolding vector_count
sync_record draw_us vectors flags =
    let us = saturate draw_us in
    let vc = vector_count vectors in
    u8 (shr us 8) ∷ u8 (low_bits us 8) ∷ u8 (shr vc 8) ∷ u8 (low_bits vc 8) ∷ flags ∷ []

unfoldable pub send_sync_reply : Globals → ℕ → ℤ → ℕ → Globals
send_sync_reply g draw_us vectors flags =
    if g.g_peer_v2
    then emit g (map write (sync_record draw_us vectors flags))
    else emit g (write sync_byte ∷ [])

-- The flags of the reply at the end of a turn.
unfoldable pub sync_flags : Globals → ℕ
sync_flags g = u8 (
    bit_or (if g.g_overflow then sync_flag_overflow else 0)
      (if g.g_have_frame then 0 else sync_flag_idle))

-- What a sender reads in a reply.
pub record Timing : Type 0 where
  pub draw_us : ℕ
  pub vectors : ℕ
  pub flags : ℕ

abbrev pub read_timing : List ℕ → Option Timing
read_timing (a ∷ b ∷ c ∷ d ∷ f ∷ []) =
    some (record { draw_us = a * 256 + b; vectors = c * 256 + d; flags = f })
read_timing _ = none

read_timing-sync_record :
    (us n flags : ℕ)
    → read_timing (sync_record us (pos n) flags)
      ≡ some (record { draw_us = min us 65535; vectors = min n 65535; flags = flags })
unfolding sync_record vector_count
read_timing-sync_record us n flags =
    let time : u8 (shr (saturate us) 8) * 256 + u8 (low_bits (saturate us) 8) ≡ min us 65535 =
      ground arith in
    let vc : ℕ = vector_count (pos n) in
    let size : u8 (shr vc 8) * 256 + u8 (low_bits vc 8) ≡ min n 65535 = ground arith in
    rw (time, size) refl

-- What a sender is promised: after the HELLO probe a timing record, and else the sync byte.
abbrev pub Promised : Bool → ℕ → ℕ → ℕ → List ℕ → Type 0
Promised true us n flags reply =
    read_timing reply
    ≡ some (record { draw_us = min us 65535; vectors = min n 65535; flags = flags })
Promised false us n flags reply = reply ≡ 6 ∷ []

-- The reply changes nothing but what has been written, and is the sync byte alone to a sender that
-- has not negotiated, and to one that has five bytes in which it reads the drawing time and the
-- number of vectors, each up to 65535, and the flags.
pub send_sync_reply_lem :
    (g : Globals) (us n flags : ℕ)
    → (reply : List ℕ) × (send_sync_reply g us (pos n) flags ≡ emit g (map write reply))
      × Promised g.g_peer_v2 us n flags reply
unfolding send_sync_reply
send_sync_reply_lem g us n flags = elim (Bool-cases g.g_peer_v2) [
  | inl v2 ↦ (sync_record us (pos n) flags, rw v2 refl, rw v2 (read_timing-sync_record us n flags))
  | inr v1 ↦ (sync_byte ∷ [], rw v1 refl, rw v1 refl)
]
