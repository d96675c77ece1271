-- ===== src/Clicks/Cards.antt =====
-- A click on the card of a file and on a picture (src/ui/timeline/timeline_delegate.cpp) against the places where the painter
-- draws them (src/ui/timeline/timeline_painter.cpp).
use progressive_desktop.Base.{◌≡◌, Bool, false, [], Text, text, ◌==◌, ◌||◌}
use progressive_desktop.Base.Int.{pos}
use progressive_desktop.Engine.{DisplayedEvent}
use progressive_desktop.Layout.{BubbleLayout}
use progressive_desktop.Clicks.{Screen, layout}

module _ {Image : Type 0} (v : Screen Image) (e : DisplayedEvent) where
  abbrev pub here : BubbleLayout
  here = layout v e

  -- Nothing else of the row can be clicked: it has no reactions, answers no message and counts no replies.
  abbrev pub IsPlain : Type 0
  IsPlain =
      (e.reactions ≡ [])
      × (e.is_thread_reply ≡ false)
      × (e.is_reply ≡ false)
      × (e.thread_reply_count ≡ pos 0)

  is_picture : Text → Bool
  is_picture kind = kind == text "m.image" || kind == text "m.video"
