-- ===== src/Frame/Ext/Dispatch.antt =====
-- src/frame.c, `dispatch_ext`: a gathered payload by its subtype.
use vekterm.Base.{ℕ, ◌==◌, true, false, Option, some, if◌then◌else◌, ◌>>=◌}
use vekterm.Frame.State.{Frame, Parser}
use vekterm.Frame.Ext.Heightfield.{dispatch_heightfield}
use vekterm.Frame.Ext.Polyline.{dispatch_polyline}

abbrev pub heightfield : ℕ
heightfield = 1

abbrev pub polyline : ℕ
polyline = 2

abbrev pub set_overflow : Frame → Frame
set_overflow f = record f { overflow = true }

module _ {C : Type 0} where
  -- The `switch` on the subtype; an unknown one is skipped.
  unfoldable pub dispatch_subtype : Parser C → Option (Parser C)
  dispatch_subtype p =
      if p.ext_subtype == heightfield
      then dispatch_heightfield p p.ext_buf p.ext_len
      else (if p.ext_subtype == polyline then dispatch_polyline p p.ext_buf p.ext_len else some p)

  abbrev pub clear_ext : Parser C → Parser C
  clear_ext p = record p { ext_subtype = 0; ext_len = 0; ext_overflow = false }

  unfoldable pub dispatch_ext : Parser C → Option (Parser C)
  dispatch_ext p = do
    q ←
        if p.ext_overflow
        then some (record p { frame = set_overflow p.frame })
        else dispatch_subtype p
    some (clear_ext q)
