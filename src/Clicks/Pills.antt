-- ===== src/Clicks/Pills.antt =====
-- A click on a reaction (src/ui/timeline/timeline_delegate.cpp) against the place where the painter puts it
-- (src/ui/timeline/timeline_painter.cpp).
use progressive_desktop.Base.{◌≡◌, List, [], ◌∷◌, Text, if◌then◌else◌}
use progressive_desktop.Base.Int.{pos, ltb_ℤ}
use progressive_desktop.Engine.{DisplayedEvent}
use progressive_desktop.Layout.{BubbleLayout, total_bubble_h}
use progressive_desktop.Layout.Reactions.{ReactionRow}
use progressive_desktop.Painter.{drawn_pills}
use progressive_desktop.Zones.{bubble_width}
use progressive_desktop.Clicks.{Screen, Signal, reaction_clicked, layout, bubble_x, lines}

-- What the layout says of the height of the bubble.
abbrev HasRoom : DisplayedEvent → BubbleLayout → Type 0
HasRoom e l =
    (l.bubble_h ≡ total_bubble_h l)
    × (l.thread_count_h ≡ (if ltb_ℤ (pos 0) e.thread_reply_count then 16 else 0))

-- The reactions among the signals, each with the message.
abbrev pub reactions_of : List Signal → List (Text × Text)
reactions_of [] = []
reactions_of (reaction_clicked id t ∷ ss) = (id, t) ∷ reactions_of ss
reactions_of (s ∷ ss) = reactions_of ss

module _ {Image : Type 0} (v : Screen Image) (e : DisplayedEvent) where
  abbrev here : BubbleLayout
  here = layout v e

  -- The pills as the painter puts them.
  abbrev pub drawn : List ReactionRow
  drawn = drawn_pills v.advance v.decimal (lines v e) (bubble_x v e) (bubble_width v.width) e here
