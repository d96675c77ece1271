-- ===== src/Clicks.antt =====
-- src/ui/timeline/timeline_delegate.cpp: the height of a row and what a click in it means.
pub mod Pills
pub mod Cards
use progressive_desktop.Base.{
  ℕ, ◌+◌, ◌-◌, ◌*◌, Bool, true, false, Option, none, some, List, [], ◌∷◌, ◌++◌, Text, text,
  is_empty, ◌==◌, not, ◌&&◌, ◌||◌, if◌then◌else◌, ltb, leb, max,
}
use progressive_desktop.Base.Int.{ℤ, pos, ◌+ℤ◌, ◌-ℤ◌, ltb_ℤ, min_ℤ}
use progressive_desktop.Engine.{DisplayedEvent}
use progressive_desktop.History.{has_prefix}
use progressive_desktop.Timeline.{Media, Role, to_lines, event_data}
use progressive_desktop.Layout.{
  BubbleLayout, bubble_padding, pad_top, pad_bottom, same_sender_gap, time_row_h, indicator_row_h,
  compute_layout, total_height,
}
use progressive_desktop.Layout.Reactions.{ReactionRow, compute_reaction_layout}
use progressive_desktop.Painter.{balloon_buf, file_card_h}
use progressive_desktop.Zones.{
  avatar_size, margin, gap, max_image_w, file_card_max_w, fallback_view_w, min_usable_view_w, Click,
  in_zone, pill_at, bubble_width,
}

pub data Signal : Type 0 where
  double_clicked : Text → Signal
  reaction_clicked : Text → Text → Signal
  thread_indicator_clicked : Text → Signal
  message_clicked : Text → Signal
  image_clicked : Text → Text → Signal
  link_clicked : Text → Signal
  clipboard : Text → Signal

-- The kinds of events that are told apart; `key_c` has the keys Control and Shift.
pub data Input : Type 0 where
  double_click : Input
  key_c : Bool → Bool → Input
  release : Click → Input
  other : Input

-- What a row is laid out with: the loader of images, if there is one, our user and the width of the row. `anchor_at` is Qt's
-- `anchorAt` in the document of a body, laid out in a width; `advance`, `decimal` and `text_height` are as in the
-- layout, `stamp` is the time of day.
pub record Screen (Image : Type 0) : Type 0 where
  pub loader : Option (Media Image)
  pub null_image : Image
  pub decimal : ℕ → Text
  pub text_height : Text → Text → ℤ → ℕ
  pub advance : Text → ℕ
  pub anchor_at : Text → ℤ → ℤ → ℤ → Text
  pub stamp : ℤ → Text
  pub my_user : Text
  pub width : ℕ

module _ {Image : Type 0} (v : Screen Image) (e : DisplayedEvent) where
  unfoldable pub layout : BubbleLayout
  unfolding bubble_width
  layout =
      compute_layout v.loader v.null_image v.decimal v.text_height e v.my_user
        (bubble_width v.width)

  -- `sizeHint`, with the width that is used there for a narrow view.
  unfoldable pub size_hint : ℕ × ℕ
  unfolding bubble_width
  size_hint =
      let usable = if ltb min_usable_view_w v.width then v.width else fallback_view_w in
      let l =
        compute_layout v.loader v.null_image v.decimal v.text_height e v.my_user
          (bubble_width usable) in
      if e.is_date_divider
      then (v.width, 28)
      else if e.event_type == text "progressive.system"
      then (usable, 28)
      else (usable, max (total_height l) (avatar_size + 8))

  unfoldable pub bubble_x : ℤ
  unfolding bubble_width
  bubble_x =
      if not (is_empty v.my_user) && e.sender_id == v.my_user
      then pos v.width -ℤ pos 1 -ℤ pos margin -ℤ pos avatar_size -ℤ pos gap -ℤ bubble_width v.width
      else pos (margin + avatar_size + gap)

  unfoldable pub bubble_y : BubbleLayout → ℕ
  bubble_y l = (if l.is_first_in_group then 4 else same_sender_gap) + l.name_h

  unfoldable pub lines : List Text
  lines = to_lines (event_data v.loader v.null_image v.decimal Role.reactions e)

  unfoldable pub has_thread : Bool
  has_thread = ltb_ℤ (pos 0) e.thread_reply_count

  -- The upper edge of the reactions.
  unfoldable pub base_y : BubbleLayout → ℕ
  unfolding bubble_y has_thread
  base_y l =
      let inside = bubble_y l + l.bubble_h - pad_bottom - time_row_h - l.reaction_h in
      if l.is_last_in_group
      then bubble_y l + l.bubble_h + balloon_buf
      else if has_thread
      then inside - (l.thread_count_h + balloon_buf)
      else inside

  unfoldable pub reaction_at : BubbleLayout → Click → Option Text
  unfolding lines base_y bubble_x bubble_width pill_at
  reaction_at l c =
      if is_empty lines
      then none
      else pill_at c (
          compute_reaction_layout v.advance v.decimal lines bubble_x (pos (base_y l))
            (bubble_width v.width))

  abbrev pub inner_w : ℤ
  inner_w = bubble_width v.width -ℤ pos (bubble_padding * 2)

  abbrev pub inner_x : ℤ
  inner_x = bubble_x +ℤ pos bubble_padding

  unfoldable pub on_thread_reply : BubbleLayout → Click → Bool
  unfolding in_zone bubble_y
  on_thread_reply l c =
      let y = bubble_y l + pad_top + (if ltb 0 l.pinned_h then indicator_row_h else 0) in
      e.is_thread_reply
      && not (is_empty e.thread_root_id)
      && ltb 0 l.thread_reply_h
      && in_zone c inner_x y inner_w indicator_row_h

  -- Below the markers of a pinned message and of a thread reply.
  unfoldable pub reply_y : BubbleLayout → ℕ
  unfolding bubble_y
  reply_y l =
      bubble_y l
      + pad_top
      + (if ltb 0 l.pinned_h then 14 else 0)
      + (if ltb 0 l.thread_reply_h then 14 else 0)

  unfoldable pub on_reply : BubbleLayout → Click → Bool
  unfolding in_zone reply_y
  on_reply l c = e.is_reply && ltb 0 l.reply_h && in_zone c inner_x (reply_y l) inner_w 14

  unfoldable pub on_thread : BubbleLayout → Click → Bool
  unfolding in_zone bubble_y has_thread
  on_thread l c =
      let y = bubble_y l + l.bubble_h - pad_bottom - time_row_h - l.thread_count_h - 2 in
      has_thread && in_zone c inner_x y inner_w 14

  -- Below the marker of a reply, where the text begins.
  unfoldable pub text_y : BubbleLayout → ℕ
  unfolding reply_y
  text_y l = reply_y l + (if ltb 0 l.reply_h then 14 else 0)

  -- Below the text.
  unfoldable pub media_y : BubbleLayout → ℕ
  unfolding text_y
  media_y l = text_y l + (if ltb 0 l.text_h then l.text_h + 4 else 0)

  unfoldable pub on_image : BubbleLayout → Click → Bool
  unfolding in_zone media_y
  on_image l c =
      (e.msgtype == text "m.image" || e.msgtype == text "m.video")
      && not (is_empty e.mxc_url)
      && ltb 0 l.image_h
      && in_zone c inner_x (media_y l) (min_ℤ inner_w (pos max_image_w)) l.image_h

  unfoldable pub on_file : BubbleLayout → Click → Bool
  unfolding in_zone media_y
  on_file l c =
      (e.msgtype == text "m.file" || e.msgtype == text "m.audio")
      && not (is_empty e.mxc_url)
      && in_zone c inner_x (media_y l) (min_ℤ inner_w (pos file_card_max_w)) file_card_h

  unfoldable pub link_at : BubbleLayout → Click → Option Text
  unfolding text_y
  link_at l c =
      let anchor = v.anchor_at e.body inner_w (c.x -ℤ inner_x) (pos c.y -ℤ pos (text_y l)) in
      if not (e.msgtype == text "m.text" || is_empty e.msgtype)
      then none
      else if has_prefix (text "https://") anchor || has_prefix (text "http://") anchor
      then some anchor
      else if has_prefix (text "matrix.to") anchor
      then some (text "https://" ++ anchor)
      else none

  -- A click that is on no reaction.
  unfoldable pub elsewhere : BubbleLayout → Click → Signal
  unfolding on_thread_reply on_reply on_thread on_image on_file link_at
  elsewhere l c =
      if on_thread_reply l c
      then thread_indicator_clicked e.thread_root_id
      else if on_reply l c
      then message_clicked e.reply_to_event_id
      else if on_thread l c
      then thread_indicator_clicked e.event_id
      else if on_image l c || on_file l c
      then image_clicked e.event_id e.mxc_url
      else elim (link_at l c) as (λ x. Signal) [
        | some url ↦ link_clicked url
        | none ↦ message_clicked e.event_id
      ]

  -- The first zone that the click is in.
  unfoldable pub clicked : BubbleLayout → Click → Signal
  unfolding reaction_at elsewhere
  clicked l c = elim (reaction_at l c) as (λ x. Signal) [
    | some caption ↦ reaction_clicked e.event_id caption
    | none ↦ elsewhere l c
  ]

  -- `editorEvent`: whether the event was handled, and the signals; `by_default` is what the base class answers.
  unfoldable pub editor_event : Bool → Input → Bool × List Signal
  unfolding layout clicked
  editor_event by_default double_click = (true, double_clicked e.event_id ∷ [])
  editor_event by_default (key_c ctrl shift) =
      if not (ctrl && shift)
      then (by_default, [])
      else if is_empty e.event_id
      then (false, [])
      else (
        true,
        clipboard (
              text "["
              ++ e.sender_name
              ++ text ", "
              ++ v.stamp e.origin_server_ts
              ++ text "]: "
              ++ e.body)
            ∷ [],
      )
  editor_event by_default other = (by_default, [])
  editor_event by_default (release c) =
      if e.event_type == text "progressive.system"
      then (false, [])
      else (true, clicked layout c ∷ [])
