-- ===== src/Timeline.antt =====
-- src/ui/timeline/timeline_model.cpp: what the list model answers for a row and a role.
use progressive_desktop.Base.{
  ℕ, Bool, false, Option, none, some, List, [], ◌++◌, map, Text, text, is_empty, if◌then◌else◌,
}
use progressive_desktop.Base.Int.{ℤ}
use progressive_desktop.Engine.{DisplayedEvent, ReactionData}

-- The enumeration `Roles`, and Qt's role for the tooltip.
pub data Role : Type 0 where
  sender sender_name time event_type msgtype body content_json mxc_url mimetype : Role
  is_reply reply_to is_thread_root thread_count is_thread_reply thread_root_id is_pinned : Role
  reactions decrypt_error image image_loaded media_failure is_movie event_id avatar_url : Role
  tool_tip : Role

-- `QVariant`, with the kinds of values that the model gives out.
pub data Variant (Image : Type 0) : Type 0 where
  invalid : Variant Image
  words : Text → Variant Image
  number : ℤ → Variant Image
  flag : Bool → Variant Image
  lines : List Text → Variant Image
  picture : Image → Variant Image

-- The conversions that the views make; each role has a value of one kind.
abbrev pub to_text : {Image : Type 0} → Variant Image → Text
to_text (words t) = t
to_text _ = []

abbrev pub to_flag : {Image : Type 0} → Variant Image → Bool
to_flag (flag b) = b
to_flag _ = false

abbrev pub to_lines : {Image : Type 0} → Variant Image → List Text
to_lines (lines ls) = ls
to_lines _ = []

abbrev pub to_number : {Image : Type 0} → Variant Image → ℤ
to_number (number n) = n
to_number _ = ℤ.pos 0

-- What the image loader says of an address.
pub record Media (Image : Type 0) : Type 0 where
  pub get_cached : Text → Image
  pub has_image : Text → Bool
  pub failure_reason : Text → Text
  pub null_image : Image

reaction_line : (ℕ → Text) → ReactionData → Text
reaction_line decimal r = r.emoji ++ text " " ++ decimal r.count

-- `data` at the row of an event. `loader` is none while no image loader is set; `decimal` is
-- `QString::number`.
module _ {Image : Type 0} (loader : Option (Media Image)) (null_image : Image)
    (decimal : ℕ → Text) where
  unfoldable pub event_data : Role → DisplayedEvent → Variant Image
  unfolding reaction_line
  event_data sender e = words e.sender_id
  event_data sender_name e = words e.sender_name
  event_data time e = number e.origin_server_ts
  event_data event_type e = words e.event_type
  event_data msgtype e = words e.msgtype
  event_data body e = words e.body
  event_data content_json e = words e.content_json
  event_data mxc_url e = words e.mxc_url
  event_data mimetype e = words e.mimetype
  event_data is_reply e = flag e.is_reply
  event_data reply_to e = words e.reply_to_event_id
  event_data is_thread_root e = flag e.is_thread_root
  event_data thread_count e = number e.thread_reply_count
  event_data is_thread_reply e = flag e.is_thread_reply
  event_data thread_root_id e = words e.thread_root_id
  event_data is_pinned e = flag e.is_pinned
  event_data image e = elim loader [
    | none ↦ picture null_image
    | some l ↦ picture (l.get_cached e.mxc_url)
  ]
  event_data image_loaded e = elim loader [
    | none ↦ flag false
    | some l ↦ flag (l.has_image e.mxc_url)
  ]
  event_data media_failure e = elim loader [
    | none ↦ words []
    | some l ↦ words (l.failure_reason e.mxc_url)
  ]
  event_data is_movie e = flag e.is_movie
  event_data event_id e = words e.event_id
  event_data avatar_url e = words e.avatar_url
  event_data decrypt_error e = words e.decrypt_error
  event_data tool_tip e =
      if is_empty e.decrypt_error
      then invalid
      else words (
          text "Cannot decrypt this message: "
          ++ e.decrypt_error
          ++ text "\nA key request is sent to the sender — see Log viewer (E2EE) for details.")
  event_data reactions e = lines (map (reaction_line decimal) e.reactions)
