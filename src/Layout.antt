-- ===== src/Layout.antt =====
-- src/ui/timeline/timeline_layout.cpp and timeline_layout.hpp: the heights of a message bubble. Lengths
-- are pixels; heights are never negative, widths and positions may be.
pub mod Reactions
pub mod Bubble
use progressive_desktop.Base.{
  ℕ, suc, ◌+◌, ◌-◌, ◌*◌, ◌/◌, ◌≡◌, Bool, true, false, Option, none, some, List, [], ◌∷◌, ◌++◌, Text,
  text, is_empty, not, ◌&&◌, ◌||◌, if◌then◌else◌, ◌==◌, eqb, ltb, length, min, max,
}
use progressive_desktop.Base.Int.{ℤ, pos, pos_part, ◌-ℤ◌, div_ℤ, ltb_ℤ}
use progressive_desktop.Engine.{DisplayedEvent}
use progressive_desktop.Timeline.{
  Role, Variant, Media, to_text, to_flag, to_lines, to_number, event_data,
}

abbrev pub bubble_padding : ℕ
bubble_padding = 10

abbrev pub pad_top : ℕ
pad_top = 6

abbrev pub pad_bottom : ℕ
pad_bottom = 4

abbrev pub same_sender_gap : ℕ
same_sender_gap = 2

abbrev pub time_row_h : ℕ
time_row_h = 14

abbrev pub image_loaded_h : ℕ
image_loaded_h = 200

abbrev pub image_placeholder_h : ℕ
image_placeholder_h = 100

abbrev pub reaction_pill_h : ℕ
reaction_pill_h = 20

abbrev pub indicator_row_h : ℕ
indicator_row_h = 14

abbrev pub name_row_h : ℕ
name_row_h = 18

abbrev pub thread_count_row_h : ℕ
thread_count_row_h = 16

abbrev pub reaction_pill_avg_w : ℕ
reaction_pill_avg_w = 100

pub record BubbleLayout : Type 0 where
  pub name_h : ℕ
  pub text_h : ℕ
  pub image_h : ℕ
  pub pinned_h : ℕ
  pub thread_reply_h : ℕ
  pub reply_h : ℕ
  pub thread_count_h : ℕ
  pub reaction_h : ℕ
  pub bubble_h : ℕ
  pub is_first_in_group : Bool
  pub is_last_in_group : Bool
  pub is_emote : Bool

-- The height with a gap of 4 behind it, and nothing for a part that is not there.
spaced : ℕ → ℕ
spaced h = if ltb 0 h then h + 4 else 0

unfoldable pub total_bubble_h : BubbleLayout → ℕ
unfolding spaced
total_bubble_h l =
    l.name_h
    + pad_top
    + l.pinned_h
    + l.thread_reply_h
    + l.reply_h
    + spaced l.text_h
    + spaced l.image_h
    + (pad_bottom + time_row_h)
    + l.thread_count_h
    + (if l.is_last_in_group then 0 else l.reaction_h)

unfoldable pub total_height : BubbleLayout → ℕ
total_height l =
    (if l.is_first_in_group then 4 else same_sender_gap)
    + l.bubble_h
    + l.name_h
    + (if l.is_last_in_group then l.reaction_h else 0)
    + 2

-- The height that is set aside for `n` reactions in a bubble of width `w`.
unfoldable pub reaction_height : ℕ → ℤ → ℕ
reaction_height n w =
    let per_row = max 1 (pos_part (div_ℤ (w -ℤ pos (bubble_padding * 2)) reaction_pill_avg_w)) in
    if eqb n 0 then 0 else min 2 ((n + per_row - 1) / per_row) * reaction_pill_h

-- What `computeLayout` reads of a row; `valid` says that the model has the row.
module _ {Image : Type 0} (loader : Option (Media Image)) (null_image : Image) (decimal : ℕ → Text)
    (text_height : Text → Text → ℤ → ℕ) where
  -- `calcTextHeight`; the document that lays the text out is Qt's.
  unfoldable pub calc_text_height : Text → Text → ℤ → ℕ
  calc_text_height body msgtype w = if is_empty body then 0 else text_height body msgtype w

  unfoldable pub has_image : DisplayedEvent → Bool
  has_image e =
      let d = λ (r : Role). to_text (event_data loader null_image decimal r e) in
      (d Role.msgtype == text "m.image" || d Role.msgtype == text "m.video")
      && not (is_empty (d Role.mxc_url))

  unfoldable pub compute_layout : DisplayedEvent → Text → ℤ → BubbleLayout
  unfolding calc_text_height has_image event_data total_bubble_h reaction_height
  compute_layout e my_user bubble_w =
      let d = λ (r : Role). to_text (event_data loader null_image decimal r e) in
      let on = λ (r : Role). to_flag (event_data loader null_image decimal r e) in
      let outgoing = not (is_empty my_user) && d Role.sender == my_user in
      let emote = d Role.msgtype == text "m.emote" in
      let media = has_image e in
      let first = e.group_first || emote in
      let text_w = bubble_w -ℤ pos (bubble_padding * 2) in
      let words =
        if emote then text "* " ++ d Role.sender_name ++ text " " ++ d Role.body else d Role.body in
      let l : BubbleLayout = record {
        name_h =
            if not outgoing && not emote && first && not (is_empty (d Role.sender_name))
            then name_row_h
            else 0;
        text_h =
            if (not (is_empty (d Role.body)) || emote) && not media
            then calc_text_height words (if emote then text "m.text" else d Role.msgtype) text_w
            else 0;
        image_h =
            if media
            then (if on Role.image_loaded
                then image_loaded_h + (if is_empty (d Role.body) then 0 else indicator_row_h + 2)
                else image_placeholder_h)
            else 0;
        pinned_h = if on Role.is_pinned then indicator_row_h else 0;
        thread_reply_h = if on Role.is_thread_reply then indicator_row_h else 0;
        reply_h =
            if on Role.is_reply && not (is_empty (d Role.reply_to)) then indicator_row_h else 0;
        thread_count_h =
            if ltb_ℤ (pos 0) (to_number (event_data loader null_image decimal Role.thread_count e))
            then thread_count_row_h
            else 0;
        reaction_h =
            reaction_height
              (length (to_lines (event_data loader null_image decimal Role.reactions e))) bubble_w;
        bubble_h = 0;
        is_first_in_group = first;
        is_last_in_group = e.group_last || emote;
        is_emote = emote;
      } in
      record l { bubble_h = total_bubble_h l }
