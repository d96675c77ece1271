-- ===== src/Tests.antt =====
-- The data of the examples in the modules below: small values of the types that stand for what the
-- program meets.
pub mod Messages
pub mod Files
pub mod Media
pub mod Bubbles
pub mod Syncs
pub mod People
pub mod Lists
pub mod Rooms
pub mod Actions
pub mod Clicks
use progressive_desktop.Base.{ℕ, Bool, true, false, Option, none, some, List, [], ◌∷◌, Text}
use progressive_desktop.Base.Int.{ℤ, pos}
use progressive_desktop.Engine.{DisplayedEvent}

-- One letter.
abbrev pub letter : ℕ → Text
letter n = n ∷ []

-- A row as it is default-constructed.
abbrev pub blank : DisplayedEvent
blank = record {
  event_id = [];
  event_type = [];
  sender_id = [];
  sender_name = [];
  avatar_url = [];
  msgtype = [];
  body = [];
  content_json = [];
  mxc_url = [];
  mimetype = [];
  media_key = [];
  media_iv = [];
  media_sha256 = [];
  decrypt_error = [];
  origin_server_ts = pos 0;
  is_reply = false;
  reply_to_event_id = [];
  is_thread_root = false;
  thread_reply_count = pos 0;
  is_thread_reply = false;
  thread_root_id = [];
  is_pinned = false;
  is_movie = false;
  is_replace = false;
  replace_target_id = [];
  is_date_divider = false;
  divider_label = [];
  group_first = true;
  group_last = true;
  reactions = [];
}

-- A number in unary, which is enough where only the place of it matters.
abbrev pub unary : ℕ → Text
unary n = n ∷ []

abbrev pub unary_ts : ℤ → Text
unary_ts t = []
