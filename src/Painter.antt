-- ===== src/Painter.antt =====
-- src/ui/timeline/timeline_painter.cpp: where drawMessageBubble puts the parts of a bubble, as
-- distances from the upper edge of the bubble.
pub mod Boxes
use progressive_desktop.Base.{
  ℕ, zero, suc, ◌+◌, ◌-◌, ◌≤◌, ◌<◌, ◌≡◌, refl, ◌≢◌, ◌⊎◌, inl, inr, Bool, true, false, Option, none,
  some, List, [], ◌∷◌, ◌++◌, arith, Text, text, is_empty, ◌==◌, ◌&&◌, ◌||◌, not, if◌then◌else◌, max,
  min, ltb,
}
use progressive_desktop.Base.Int.{ℤ, pos, ltb_ℤ}
use progressive_desktop.Engine.{DisplayedEvent}
use progressive_desktop.Timeline.{Media, Role, to_text, to_flag, event_data}
use progressive_desktop.Layout.{
  BubbleLayout, total_bubble_h, total_height, pad_top, pad_bottom, time_row_h, same_sender_gap,
  indicator_row_h, image_loaded_h, image_placeholder_h, compute_layout, has_image,
}
use progressive_desktop.Layout.Reactions.{ReactionRow, compute_reaction_layout}

abbrev pub emote_bottom_pad : ℕ
emote_bottom_pad = 18

abbrev pub min_text_h : ℕ
min_text_h = 20

abbrev pub file_card_h : ℕ
file_card_h = 38

abbrev pub balloon_buf : ℕ
balloon_buf = 2

-- The top of the text: below the markers for a pinned message, a thread reply and a reply.
unfoldable pub text_top : DisplayedEvent → ℕ
text_top e =
    pad_top
    + (if e.is_pinned then 14 else 0)
    + (if e.is_thread_reply then 14 else 0)
    + (if e.is_reply && not (is_empty e.reply_to_event_id) then 14 else 0)

-- The height of the box that the text is drawn in.
unfoldable pub text_box_h : DisplayedEvent → BubbleLayout → ℕ
unfolding text_top
text_box_h e l = max min_text_h (l.bubble_h - emote_bottom_pad - text_top e)

-- The lower edge of the card that stands for a file or an audio message.
unfoldable pub card_bottom : DisplayedEvent → ℕ
unfolding text_top
card_bottom e = text_top e + file_card_h

-- The upper edge of the row with the time.
unfoldable pub time_top : BubbleLayout → ℕ
time_top l = l.bubble_h - pad_bottom - time_row_h

-- The upper edge of the bubble from the upper edge of the list's row.
unfoldable pub bubble_top : BubbleLayout → ℕ
bubble_top l = (if l.is_first_in_group then 4 else same_sender_gap) + l.name_h

-- Where a media row's picture ends: `image_h` is the height of the scaled picture.
unfoldable pub media_bottom : DisplayedEvent → Bool → Bool → ℕ → ℕ
unfolding text_top
media_bottom e loaded null h =
    let top = text_top e + 2 in
    let caption = if is_empty e.body then 0 else indicator_row_h + 2 in
    if loaded
    then (if null then top else top + min h image_loaded_h + 2 + caption)
    else top + image_placeholder_h + 2

-- The upper edge of the row that counts the replies of a thread.
unfoldable pub thread_top : BubbleLayout → ℕ
thread_top l = l.bubble_h - pad_bottom - time_row_h - l.thread_count_h - 2

-- The upper edge of the reactions: below the bubble of the last row of a group, inside it otherwise.
unfoldable pub reactions_top : DisplayedEvent → BubbleLayout → ℕ
reactions_top e l =
    let inside = l.bubble_h - pad_bottom - time_row_h - l.reaction_h in
    if l.is_last_in_group
    then l.bubble_h + balloon_buf
    else if ltb_ℤ (pos 0) e.thread_reply_count
    then inside - (l.thread_count_h + balloon_buf)
    else inside

-- The pills of the reactions, in a bubble of which the left edge and the width are given.
unfoldable pub drawn_pills :
    (Text → ℕ) → (ℕ → Text) → List Text → ℤ → ℤ → DisplayedEvent → BubbleLayout → List ReactionRow
unfolding bubble_top reactions_top
drawn_pills advance decimal lines bubble_x bubble_w e l =
    if is_empty lines
    then []
    else compute_reaction_layout advance decimal lines bubble_x
        (pos (bubble_top l + reactions_top e l)) bubble_w
