-- ===== src/Frame/Tests/Safe.antt =====
-- A command word and a polyline whose payload is cut off, read without a fault.
use vekterm.Base.{ℕ, List, [], ◌∷◌, IsDefined}
use vekterm.Frame.State.{Parser}
use vekterm.Frame.Beam.{init}
use vekterm.Frame.Parser.{feed_word}
use vekterm.Frame.Picture.{Shown}
use vekterm.Frame.Refine.Client.{recorder}
use vekterm.Frame.Faults.Feed.{feed_word-IsDefined}

abbrev resting : Parser (List Shown)
resting = init (recorder [])

-- The header of an empty heightfield.
feed_word-IsDefined_example : IsDefined (feed_word resting 0xC1000000)
feed_word-IsDefined_example = feed_word-IsDefined resting 0xC1000000

-- Six points from (1, 2), of which the buffer holds one delta.
abbrev cut_off : List ℕ
cut_off = 0 ∷ 200 ∷ 0 ∷ 1 ∷ 0 ∷ 2 ∷ 0 ∷ 6 ∷ 5 ∷ 250 ∷ []
