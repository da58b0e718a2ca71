-- ===== src/Receiver/Session/Drawn.antt =====
-- What has been drawn, of the calls made.
use mathlib.Core.List.{append-nil}
use vekterm.Base.{
  true, if◌then◌else◌, Bool-cases, inl, inr, ℕ, ◌≡◌, refl, Bool, false, List, [], ◌∷◌, ◌++◌, map,
  ap, ◌∙◌,
}
use vekterm.Frame.Picture.{Shown}
use vekterm.Receiver.State.{write, wait_recal, direct_draw, draw_string, DrawSeg, Call}
use vekterm.Receiver.Callbacks.{draw_of}
use vekterm.Receiver.Loop.{Machine, globals}
use vekterm.Receiver.Session.State.{IsAnswered}

-- What a frame makes the receiver call to draw it.
abbrev pub scene : Shown → List Call
scene sh = wait_recal ∷ map direct_draw (map draw_of sh.vectors)

-- The calls that draw; the others write to the sender and bring up the device.
abbrev pub is_drawn : Call → Bool
is_drawn wait_recal = true
is_drawn (direct_draw s) = true
is_drawn (draw_string x y t z) = true
is_drawn _ = false

unfoldable pub drawn : List Call → List Call
drawn [] = []
drawn (c ∷ cs) = let later = drawn cs in if is_drawn c then c ∷ later else later

drawn-append : (xs ys : List Call) → drawn (xs ++ ys) ≡ drawn xs ++ drawn ys
unfolding drawn
drawn-append [] ys = refl
drawn-append (c ∷ cs) ys = elim (Bool-cases (is_drawn c)) [
  | inl on ↦ rw on (ap (λ ds. c ∷ ds) (drawn-append cs ys))
  | inr off ↦ rw off (drawn-append cs ys)
]

drawn-write : (reply : List ℕ) → drawn (map write reply) ≡ []
unfolding drawn
drawn-write [] = refl
drawn-write (b ∷ reply) = drawn-write reply

drawn-direct_draw : (ds : List DrawSeg) → drawn (map direct_draw ds) ≡ map direct_draw ds
unfolding drawn
drawn-direct_draw [] = refl
drawn-direct_draw (d ∷ ds) = ap (λ cs. direct_draw d ∷ cs) (drawn-direct_draw ds)

drawn-scene : (sh : Shown) (reply : List ℕ) → drawn (scene sh ++ map write reply) ≡ scene sh
drawn-scene sh reply =
    drawn-append (scene sh) (map write reply)
    ∙ ap (λ cs. drawn (scene sh) ++ cs) (drawn-write reply)
    ∙ append-nil (drawn (scene sh))
    ∙ unfold drawn in ap (λ cs. wait_recal ∷ cs) (drawn-direct_draw (map draw_of sh.vectors))

pub drawn-turn :
    (m out : Machine) (sh : Shown)
    → IsAnswered m out sh
    → drawn (globals out).calls ≡ drawn (globals m).calls ++ scene sh
drawn-turn m out sh i =
    ap drawn i.calls
    ∙ drawn-append (globals m).calls (scene sh ++ map write i.reply)
    ∙ ap (λ cs. drawn (globals m).calls ++ cs) (drawn-scene sh i.reply)
