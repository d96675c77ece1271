-- ===== src/Tests/Syncs.antt =====
-- Examples for the syncs: rooms, rows, room keys and history.
use progressive_desktop.Base.{
  ◌≡◌, refl, ◌+◌, ◌≤◌, min, ◌-◌, Bool, true, false, none, List, [], ◌∷◌, ◌++◌, map, Text, text,
  ◌==◌, All, length, Map, lookup, insert, remove, lookup-insert, lookup-remove, keep, not,
  if◌then◌else◌, ltb, is_empty,
}
use progressive_desktop.Base.Int.{pos}
use progressive_desktop.Engine.{DisplayedEvent}
use progressive_desktop.Tests.{blank, letter, unary, unary_ts}
use progressive_desktop.Feed
use progressive_desktop.Feed.Rows.{IsRow, feed_events_rows}
use progressive_desktop.Feed.Edits.{shown, is_edit, edit_call, messages_split}
use progressive_desktop.Rooms.{RoomData, RoomList, IsRoomList, RoomSyncUpdate, apply_rooms}
use progressive_desktop.Rooms.Kept.{Knows, IsEncrypted, apply_rooms-IsEncrypted}
use progressive_desktop.RoomKeys.{Kind, Notification, append_room_key_rows}
use progressive_desktop.RoomKeys.Caps.{
  ours, is_request, is_withheld, is_other, append_room_key_rows-length,
}
use progressive_desktop.History

-- The list of rooms as an association list.
abbrev rooms : RoomList (Map RoomData)
rooms = record { find = lookup; upsert_room = λ r m. insert r.room_id r m; remove_room = remove }

rooms_laws : IsRoomList rooms
rooms_laws = record {
  find-upsert = λ k r m. lookup-insert r.room_id k r m;
  find-remove = λ k j m. lookup-remove j k m;
}

abbrev room : Text → Bool → RoomData
room name encrypted = record {
  room_id = letter 1;
  name = name;
  avatar_url = [];
  is_encrypted = encrypted;
  is_invite = false;
  unread_count = 0;
  highlight_count = 0;
  state_loaded = false;
  last_message = [];
}

abbrev known : Map RoomData
known = (letter 1, room (letter 9) true) ∷ []

-- The room comes again, with its id for a name and not encrypted.
abbrev update : RoomSyncUpdate
update = record {
  rooms_to_remove = [];
  rooms_to_upsert = room (letter 1) false ∷ [];
  invited_rooms = [];
  current_room_updated = false;
  current_room_id = [];
  current_room_avatars = [];
  current_room_events = [];
}

apply_rooms-IsEncrypted_example :
    Knows rooms (letter 1) IsEncrypted (apply_rooms rooms update known)
unfolding lookup ◌==◌
apply_rooms-IsEncrypted_example =
    apply_rooms-IsEncrypted rooms rooms_laws (letter 1) update known tt tt
      (room (letter 9) true, refl, refl)

-- An engine that shows every event as a message, and as an edit where it has a state key.
abbrev engine : Feed.Engine
engine = record {
  extract = λ c k. [];
  relation = λ c. none;
  system_body = λ t c k. [];
  displayed = λ e. record blank {
    event_id = e.event_id;
    is_replace = not (is_empty e.state_key);
    replace_target_id = e.state_key;
  };
  blank = blank;
}

abbrev message : Text → Text → Feed.FastEvent
message id target = record {
  event_id = id;
  event_type = text "m.room.message";
  sender_id = [];
  state_key = target;
  content_json = [];
  origin_server_ts = pos 0;
}

abbrev has_row : Text → Bool
has_row id = false

abbrev sync : List Feed.FastEvent
sync = message (letter 1) [] ∷ message (letter 2) (letter 1) ∷ []

feed_events_rows_example :
    let f = Feed.feed_events engine has_row [] [] sync Feed.start in
    All IsRow f.batch × (length f.batch + length f.pending + length f.calls ≤ 2)
feed_events_rows_example = feed_events_rows engine has_row [] [] sync

messages_split_example :
    Feed.append_timeline_for_room engine has_row [] [] sync
    ≡ map
        (edit_call engine has_row [] [])
        (keep (is_edit engine has_row [] []) (map (shown engine has_row [] []) sync))
      ++ Feed.Call.append_back_batch
          (keep (λ d. not (is_edit engine has_row [] [] d)) (map (shown engine has_row [] []) sync))
        ∷ []
unfolding text ◌==◌
messages_split_example = messages_split engine has_row [] [] sync ((refl, refl), ((refl, refl), tt))

abbrev request : Notification
request = record {
  room_id = letter 1;
  kind = Kind.requested;
  from_user_id = [];
  session_id = [];
  detail = [];
  attempt = 1;
  ts = pos 0;
}

append_room_key_rows-length_example :
    let ns = request ∷ request ∷ request ∷ request ∷ [] in
    let r = ours (letter 1) is_request ns in
    let w = ours (letter 1) is_withheld ns in
    length (append_room_key_rows blank unary unary_ts none (pos 0) (letter 1) ns)
    ≡ min 3 r + min 3 w + ours (letter 1) is_other ns + (if ltb 0 ((r - 3) + (w - 3)) then 1 else 0)
append_room_key_rows-length_example =
    append_room_key_rows-length blank unary unary_ts none (pos 0) (letter 1)
      (request ∷ request ∷ request ∷ request ∷ [])

abbrev history_engine : History.Engine
history_engine = record {
  extract = λ c k. [];
  relation = λ c. none;
  system_body = λ t c k. [];
  convert = λ d. d;
  label = λ ts. letter 68;
  blank = blank;
}

-- Two events, of the second and of the third day.
abbrev days : List DisplayedEvent
days =
    record blank { origin_server_ts = pos 86400001 }
    ∷ record blank { origin_server_ts = pos 172800001 }
    ∷ []
