-- ===== src/Engine.antt =====
-- The records that the engine (core/engine/engine_types.hpp, a submodule) hands to the user
-- interface, with the fields that the interface reads and writes.
use progressive_desktop.Base.{ℕ, Bool, List, Text}
use progressive_desktop.Base.Int.{ℤ}

pub record ReactionData : Type 0 where
  pub emoji : Text
  pub count : ℕ
  pub user_ids : List Text
  pub reaction_event_id : Text

-- One row of a timeline.
pub record DisplayedEvent : Type 0 where
  pub event_id : Text
  pub event_type : Text
  pub sender_id : Text
  pub sender_name : Text
  pub avatar_url : Text
  pub msgtype : Text
  pub body : Text
  pub content_json : Text
  pub mxc_url : Text
  pub mimetype : Text
  pub media_key : Text
  pub media_iv : Text
  pub media_sha256 : Text
  pub decrypt_error : Text
  pub origin_server_ts : ℤ
  pub is_reply : Bool
  pub reply_to_event_id : Text
  pub is_thread_root : Bool
  pub thread_reply_count : ℤ
  pub is_thread_reply : Bool
  pub thread_root_id : Text
  pub is_pinned : Bool
  pub is_movie : Bool
  pub is_replace : Bool
  pub replace_target_id : Text
  pub is_date_divider : Bool
  pub divider_label : Text
  pub group_first : Bool
  pub group_last : Bool
  pub reactions : List ReactionData

-- `ApiResult`, with the data as text.
pub record ApiResult : Type 0 where
  pub ok : Bool
  pub http_status : ℕ
  pub code : Text
  pub message : Text
  pub content : Text
