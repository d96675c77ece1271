-- ===== src/Painter/Boxes.antt =====
-- The parts that drawMessageBubble (src/ui/timeline/timeline_painter.cpp) stacks in a bubble against the
-- heights that computeLayout (src/ui/timeline/timeline_layout.cpp) sets aside for them.
use progressive_desktop.Base.{
  ℕ, ◌+◌, ◌≤◌, ◌<◌, ◌≡◌, refl, Bool, true, false, Option, arith, Text, is_empty, if◌then◌else◌,
}
use progressive_desktop.Base.Int.{ℤ, pos, ltb_ℤ}
use progressive_desktop.Engine.{DisplayedEvent}
use progressive_desktop.Timeline.{Media, Role, to_flag, event_data}
use progressive_desktop.Layout.{
  BubbleLayout, total_bubble_h, total_height, compute_layout, has_image, pad_top,
}
use progressive_desktop.Painter.{
  text_top, text_box_h, card_bottom, time_top, bubble_top, media_bottom, reactions_top,
}

-- What the theorems below use of the layout of a row.
abbrev Fits : DisplayedEvent → BubbleLayout → Type 0
Fits e l =
    (l.bubble_h ≡ total_bubble_h l)
    × (text_top e ≡ pad_top + l.pinned_h + l.thread_reply_h + l.reply_h)
    × (l.thread_count_h ≡ (if ltb_ℤ (pos 0) e.thread_reply_count then 16 else 0))

-- The box holds the text as soon as the markers above it have their heights in the layout.
text_box_h-le : (e : DisplayedEvent) (l : BubbleLayout) → Fits e l → l.text_h ≤ text_box_h e l
unfolding text_box_h total_bubble_h
text_box_h-le e l h = ground arith

media_lem :
    (e : DisplayedEvent) (l : BubbleLayout) (loaded null : Bool) (h : ℕ)
    → Fits e l
    → l.image_h ≡ (if loaded then 200 + (if is_empty e.body then 0 else 16) else 100)
    → media_bottom e loaded null h ≤ time_top l
unfolding total_bubble_h media_bottom time_top
media_lem e l loaded null h f k = ground arith

card_lem :
    (e : DisplayedEvent) (l : BubbleLayout)
    → Fits e l
    → l.image_h ≡ 0
    → l.name_h + l.text_h + l.thread_count_h + (if l.is_last_in_group then 0 else l.reaction_h) < 34
    → time_top l < card_bottom e
unfolding total_bubble_h card_bottom time_top
card_lem e l f k h = ground arith

module _ {Image : Type 0} (loader : Option (Media Image)) (null_image : Image) (decimal : ℕ → Text)
    (text_height : Text → Text → ℤ → ℕ) (e : DisplayedEvent) (my_user : Text) (bubble_w : ℤ) where
  abbrev layout : BubbleLayout
  layout = compute_layout loader null_image decimal text_height e my_user bubble_w

  -- The box that the painter gives to a message's text is at least as high as the text was measured,
  -- whatever else the bubble shows.
  pub text_box_h-fits : layout.text_h ≤ text_box_h e layout
  unfolding compute_layout text_top event_data
  text_box_h-fits = text_box_h-le e layout (refl, refl, refl)

  -- The reactions of the last row of a group end inside the height that the list gives the row.
  pub reactions_end_in_row :
      layout.is_last_in_group ≡ true
      → bubble_top layout + reactions_top e layout + layout.reaction_h ≡ total_height layout
  unfolding bubble_top reactions_top total_height
  reactions_end_in_row h = ground arith

  -- A picture, or its placeholder, ends above the row with the time, whatever the picture's height.
  media_bottom-le :
      (null : Bool) (h : ℕ)
      → has_image loader null_image decimal text_height e ≡ true
      → media_bottom e (to_flag (event_data loader null_image decimal Role.image_loaded e)) null h
        ≤ time_top layout
  unfolding compute_layout text_top event_data has_image
  media_bottom-le null h k =
      media_lem e layout (to_flag (event_data loader null_image decimal Role.image_loaded e)) null h
        (refl, refl, refl) (rw k refl)

  -- The card of a file or an audio message is 38 high whatever was measured for its text. Where the
  -- other parts leave less than 34 for it, it covers the row with the time.
  card_covers_time :
      has_image loader null_image decimal text_height e ≡ false
      → layout.name_h
          + layout.text_h
          + layout.thread_count_h
          + (if layout.is_last_in_group then 0 else layout.reaction_h)
        < 34
      → time_top layout < card_bottom e
  unfolding compute_layout text_top event_data has_image
  card_covers_time h k = card_lem e layout (refl, refl, refl) (rw h refl) k
