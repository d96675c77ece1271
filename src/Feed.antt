-- ===== src/Feed.antt =====
-- src/ui/room/room_store.cpp: makeSystemEvent and appendTimelineForRoom, which turn the events of one
-- sync into rows of the open timeline. The conversions of the engine and the reading of JSON are the
-- fields of `Engine`; what the timeline is asked for is a list of calls, in their order.
pub mod Rows
pub mod Edits
use progressive_desktop.Base.{
  ℕ, Bool, true, false, Option, none, some, List, [], ◌∷◌, ◌++◌, map, Text, text, is_empty, ◌==◌,
  not, ◌&&◌, ◌||◌, if◌then◌else◌, Map, lookup,
}
use progressive_desktop.Base.Int.{ℤ}
use progressive_desktop.Engine.{DisplayedEvent}

pub record FastEvent : Type 0 where
  pub event_id : Text
  pub event_type : Text
  pub sender_id : Text
  pub state_key : Text
  pub content_json : Text
  pub origin_server_ts : ℤ

pub record PendingReaction : Type 0 where
  pub target_id : Text
  pub emoji : Text
  pub sender : Text

-- What `TimelineModel` is asked for.
pub data Call : Type 0 where
  mark_deleted : Text → Call
  update_body : Text → Text → Call
  append_back_batch : List DisplayedEvent → Call
  add_reaction : PendingReaction → Call

-- `relation` reads `event_id` and `key` of `m.relates_to`, `extract` is
-- `SyncApplier::extractString` and `extractStringDec`, `displayed` is `fastEventToDisplayed`, which
-- decrypts, and `blank` is a default-constructed row.
pub record Engine : Type 0 where
  pub extract : Text → Text → Text
  pub relation : Text → Option (Text × Text)
  pub system_body : Text → Text → Text → Text
  pub displayed : FastEvent → DisplayedEvent
  pub blank : DisplayedEvent

pub record Feed : Type 0 where
  pub batch : List DisplayedEvent
  pub pending : List PendingReaction
  pub calls : List Call

unfoldable pub start : Feed
start = record { batch = []; pending = []; calls = [] }

unfoldable pub call : Call → Feed → Feed
call c f = record f { calls = f.calls ++ c ∷ [] }

unfoldable pub row : DisplayedEvent → Feed → Feed
row d f = record f { batch = f.batch ++ d ∷ [] }

-- A reaction that cannot be read is dropped.
unfoldable pub react : Option (Text × Text) → Text → Feed → Feed
react none sender f = f
react (some (target, key)) sender f = record f {
  pending = f.pending ++ record { target_id = target; emoji = key; sender = sender } ∷ [];
}

abbrev pub has_type : FastEvent → Text → Bool
has_type e t = e.event_type == t

unfoldable pub is_state : FastEvent → Bool
is_state e =
    has_type e (text "m.room.member")
    || has_type e (text "m.room.topic")
    || has_type e (text "m.room.name")
    || has_type e (text "m.room.encryption")
    || has_type e (text "m.room.create")
    || has_type e (text "m.room.avatar")

abbrev pub is_reaction : Text → Text → Bool
is_reaction event_type content = event_type == text "m.reaction" && not (is_empty content)

module _ (g : Engine) (has_row : Text → Bool) (avatars : Map Text) (my_user : Text) where
  unfoldable pub make_system_event : FastEvent → DisplayedEvent
  make_system_event e = record g.blank {
    event_type = text "progressive.system";
    event_id = e.event_id;
    origin_server_ts = e.origin_server_ts;
    sender_name = text "system";
    body = g.system_body e.event_type e.content_json e.state_key;
  }

  -- The row of a message, with the avatar of its sender where it is known.
  unfoldable pub with_avatar : DisplayedEvent → DisplayedEvent
  with_avatar d =
      if is_empty d.sender_id
      then d
      else elim (lookup d.sender_id avatars) [ none ↦ d | some url ↦ record d { avatar_url = url } ]

  -- An edit of a row that the timeline has changes that row and is no row itself.
  unfoldable pub edit_or_row : DisplayedEvent → Feed → Feed
  unfolding call row
  edit_or_row d f =
      if d.is_replace && has_row d.replace_target_id
      then call (update_body d.replace_target_id (d.body ++ text " (edited)")) f
      else row d f

  unfoldable pub message : FastEvent → Feed → Feed
  unfolding react with_avatar edit_or_row
  message e f =
      let d = g.displayed e in
      if is_reaction d.event_type d.content_json
      then react (g.relation d.content_json) d.sender_id f
      else edit_or_row (with_avatar d) f

  unfoldable pub redact : FastEvent → Feed → Feed
  unfolding call
  redact e f =
      let target = g.extract e.content_json (text "redacts") in
      if is_empty target then f else call (mark_deleted target) f

  unfoldable pub state_row : FastEvent → Feed → Feed
  unfolding make_system_event row
  state_row e f = if is_empty (make_system_event e).body then f else row (make_system_event e) f

  -- Our own join is not shown.
  unfoldable pub own_join : FastEvent → Bool
  own_join e =
      has_type e (text "m.room.member")
      && not (is_empty e.content_json)
      && g.extract e.content_json (text "membership") == text "join"
      && e.state_key == my_user

  -- The body of the loop over the events.
  unfoldable pub feed_event : FastEvent → Feed → Feed
  unfolding own_join redact react is_state state_row message
  feed_event e f =
      if own_join e
      then f
      else if has_type e (text "m.room.redaction") && not (is_empty e.content_json)
      then redact e f
      else if is_reaction e.event_type e.content_json
      then react (g.relation e.content_json) e.sender_id f
      else if is_state e
      then state_row e f
      else if has_type e (text "m.typing")
          || has_type e (text "m.receipt")
          || has_type e (text "m.fully_read")
      then f
      else if has_type e (text "m.room.message") || has_type e (text "m.room.encrypted")
      then message e f
      else f

  unfoldable pub feed_events : List FastEvent → Feed → Feed
  unfolding feed_event
  feed_events [] f = f
  feed_events (e ∷ es) f = feed_events es (feed_event e f)

  -- The calls of one sync: those of the loop, then the batch, then the reactions.
  unfoldable pub append_timeline_for_room : List FastEvent → List Call
  unfolding start feed_events
  append_timeline_for_room es =
      let f = feed_events es start in
      f.calls ++ append_back_batch f.batch ∷ map (λ (r : PendingReaction). add_reaction r) f.pending
