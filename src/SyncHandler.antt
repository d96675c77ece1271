-- ===== src/SyncHandler.antt =====
-- src/ui/handlers/sync_response_handler.cpp: handle, which brings one sync into the interface. It joins the rows
-- about room keys (RoomKeys), the rooms and rows of the sync (Rooms, Feed) and the open room (RoomHandler).
pub mod Notices
use progressive_desktop.Base.{
  ℕ, Bool, true, false, Option, none, some, List, [], ◌∷◌, ◌++◌, Text, text, is_empty, ◌==◌, not,
  ◌&&◌, ◌||◌, if◌then◌else◌, Map, ltb,
}
use progressive_desktop.Base.Int.{ℤ}
use progressive_desktop.Engine.{DisplayedEvent}
use progressive_desktop.Feed.{Engine, Call}
use progressive_desktop.Rooms.{
  RoomData, RoomSyncUpdate, Store, preserve, remove_rooms, apply_room_sync_update,
}
use progressive_desktop.RoomMenu.{RoomModel}
use progressive_desktop.RoomHandler.{View, refresh_member_cache, update_encryption_flag}
use progressive_desktop.RoomHandler.Page.{RowCall, clear}
use progressive_desktop.RoomKeys.{Notification, append_room_key_rows}

-- An event that was decrypted late; `parsed` is its plaintext: none where it is no JSON, and the type and
-- the content where they are there.
pub record Decrypted : Type 0 where
  pub event_id : Text
  pub plaintext : Text
  pub parsed : Option (Option Text × Option Text)

-- `decrypt` is `fastEventToDisplayed` at a type and a content; `avatar_of` the avatar of the row that the timeline
-- has for an id, if it has one.
pub record Late : Type 0 where
  pub decrypt : Text → Text → Decrypted → DisplayedEvent
  pub avatar_of : Text → Option Text

unfoldable pub keep_row_avatar : Option Text → DisplayedEvent → DisplayedEvent
keep_row_avatar none d = d
keep_row_avatar (some url) d = if is_empty url then d else record d { avatar_url = url }

-- The rows that are replaced, each with the id of the row.
unfoldable pub replaced_rows : Late → List Decrypted → List (Text × DisplayedEvent)
unfolding keep_row_avatar
replaced_rows l [] = []
replaced_rows l (e ∷ es) =
    let rest = replaced_rows l es in
    elim e.parsed as (λ x. List (Text × DisplayedEvent)) [
      | none ↦ rest
      | some (kind, content) ↦
          let t : Text = elim kind [ none ↦ text "m.room.message" | some k ↦ k ] in
          let c : Text = elim content [ none ↦ e.plaintext | some c ↦ c ] in
          (e.event_id, keep_row_avatar (l.avatar_of e.event_id) (l.decrypt t c e)) ∷ rest
    ]

abbrev pub is_noisy : RoomData → Bool
is_noisy rd = ltb 0 rd.unread_count || ltb 0 rd.highlight_count

unfoldable pub notice : RoomData → Text × Text
notice rd = (
  rd.name,
  (if ltb 0 rd.highlight_count
      then text "@mention in " ++ rd.name
      else if is_empty rd.last_message
      then text "New message"
      else rd.last_message),
)

abbrev pub is_in : Text → List Text → Bool
is_in k [] = false
is_in k (j ∷ js) = j == k || is_in k js

module _ {S : Type 0} (m : RoomModel S) (decimal : ℕ → Text) where
  -- The rooms of the update as `applyRoomSyncUpdate` leaves them: what the list knew is written back.
  unfoldable pub preserved_rooms : List RoomData → S → List RoomData
  preserved_rooms [] s = []
  preserved_rooms (rd ∷ rds) s =
      let rd' = preserve (m.find rd.room_id s) rd in rd' ∷ preserved_rooms rds (m.upsert_room rd' s)

  -- The room that is open was left: its view is closed.
  unfoldable pub close_removed : List Text → View S → View S
  close_removed removed v =
      if is_in v.current_room removed
      then record v {
        timeline = v.timeline ++ clear ∷ [];
        current_room = [];
        timeline_shown = false;
        load_more_shown = false;
      }
      else v

  -- The loop over the rooms, with the room that was open when the sync came: the flag of that room, and the
  -- first notification, which ends the loop.
  unfoldable pub notify_rooms : Text → List RoomData → View S → View S × Option (Text × Text)
  unfolding notice
  notify_rooms opened [] v = (v, none)
  notify_rooms opened (rd ∷ rds) v =
      let v' =
        if rd.room_id == opened then update_encryption_flag m decimal rd.is_encrypted v else v in
      let rest = notify_rooms opened rds v' in
      if not (is_noisy rd) || rd.room_id == v'.current_room then rest else (v', some (notice rd))

  -- What the callback of a sync does, in its order.
  pub record Applied : Type 0 where
    pub view : View S
    pub store : Store
    pub feed_calls : List Call
    pub replaced : List (Text × DisplayedEvent)
    pub notified : Option (Text × Text)

  -- `names` are the update's member names; `joined` and `rows` count rooms and rows for the label.
  unfoldable pub sync_applied :
      Engine
      → (Text → Bool)
      → Late
      → RoomSyncUpdate
      → List (Text × Text)
      → List Decrypted
      → Text
      → (S → ℕ)
      → ℕ
      → Store
      → View S
      → Applied
  unfolding replaced_rows preserved_rooms close_removed notify_rooms
  sync_applied g has_row late u names decrypted opened joined rows st v =
      let (st', rooms, calls) = apply_room_sync_update m.list g has_row u true st v.rooms in
      let upserted =
        preserved_rooms u.rooms_to_upsert (remove_rooms m.list u.rooms_to_remove v.rooms) in
      let applied = record v {
        rooms = rooms;
        cache = refresh_member_cache u.current_room_avatars names v.cache;
      } in
      let (w, notified) = notify_rooms opened upserted (close_removed u.rooms_to_remove applied) in
      record {
        view = record w {
          status =
              text "Synced: "
              ++ decimal (joined w.rooms)
              ++ text " rooms | "
              ++ decimal rows
              ++ text " messages";
        };
        store = st';
        feed_calls = calls;
        replaced = replaced_rows late decrypted;
        notified = notified;
      }

-- What comes with every sync: the rows about room keys, the words for the label, the decryptor's note and the notice that a
-- sync is applied, and whether it goes on: `has_data` says that it has rooms.
unfoldable pub sync_begins :
    DisplayedEvent
    → (ℕ → Text)
    → (ℤ → Text)
    → Option (Map Text)
    → ℤ
    → Bool
    → Bool
    → Text
    → Text
    → List Notification
    → List DisplayedEvent × List Text × Bool
sync_begins blank decimal decimal_ts names now decryptor has_data current note keys = (
  (if decryptor && not (is_empty current)
      then append_room_key_rows blank decimal decimal_ts names now current keys
      else []),
  (if decryptor && not (is_empty note) then note ∷ [] else [])
      ++ (if has_data then text "Syncing..." ∷ [] else []),
  has_data,
)
