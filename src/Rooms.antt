-- ===== src/Rooms.antt =====
-- src/ui/room/room_store.cpp: RoomStore::applyRoomSyncUpdate, which brings the rooms of one sync into
-- the list of rooms and hands the events of the open room on (Feed). The list itself is the
-- engine's RoomState: `RoomList` has the operations that are called, and `IsRoomList` what they
-- promise.
pub mod Kept
use progressive_desktop.Base.{
  ℕ, ◌≡◌, Bool, true, false, Option, none, some, List, [], ◌∷◌, Text, text, is_empty, ◌==◌, not,
  ◌&&◌, ◌||◌, if◌then◌else◌, Map, insert,
}
use progressive_desktop.Base.Int.{ℤ}
use progressive_desktop.Feed.{FastEvent, Engine, Call, append_timeline_for_room}

pub record RoomData : Type 0 where
  pub room_id : Text
  pub name : Text
  pub avatar_url : Text
  pub is_encrypted : Bool
  pub is_invite : Bool
  pub unread_count : ℕ
  pub highlight_count : ℕ
  pub state_loaded : Bool
  pub last_message : Text

-- `find` is `findRowByRoomId` followed by `at`.
pub record RoomList (S : Type 0) : Type 0 where
  pub find : Text → S → Option RoomData
  pub upsert_room : RoomData → S → S
  pub remove_room : Text → S → S

pub record IsRoomList {S : Type 0} (m : RoomList S) : Type 0 where
  pub find-upsert :
      (k : Text) (r : RoomData) (s : S)
      → m.find k (m.upsert_room r s) ≡ (if r.room_id == k then some r else m.find k s)
  pub find-remove :
      (k j : Text) (s : S) → m.find k (m.remove_room j s) ≡ (if j == k then none else m.find k s)

pub record RoomSyncUpdate : Type 0 where
  pub rooms_to_remove : List Text
  pub rooms_to_upsert : List RoomData
  pub invited_rooms : List RoomData
  pub current_room_updated : Bool
  pub current_room_id : Text
  pub current_room_avatars : List (Text × Text)
  pub current_room_events : List FastEvent

-- The avatars that `RoomStore` gathers for the open room.
pub record Store : Type 0 where
  pub member_avatars : Map Text
  pub last_applied_room : Text

-- What a room keeps of what the list knows of it.
unfoldable pub keep_name : RoomData → RoomData → RoomData
keep_name old rd =
    if rd.name == rd.room_id && not (is_empty old.name) && not (old.name == rd.room_id)
    then record rd { name = old.name }
    else rd

unfoldable pub keep_avatar : RoomData → RoomData → RoomData
keep_avatar old rd =
    if is_empty rd.avatar_url && not (is_empty old.avatar_url)
    then record rd { avatar_url = old.avatar_url }
    else rd

unfoldable pub keep_encryption : RoomData → RoomData → RoomData
keep_encryption old rd =
    if not rd.is_encrypted && old.is_encrypted then record rd { is_encrypted = true } else rd

unfoldable pub preserve : Option RoomData → RoomData → RoomData
unfolding keep_name keep_avatar keep_encryption
preserve none rd = rd
preserve (some old) rd = keep_encryption old (keep_avatar old (keep_name old rd))

module _ {S : Type 0} (m : RoomList S) where
  unfoldable pub remove_rooms : List Text → S → S
  remove_rooms [] s = s
  remove_rooms (k ∷ ks) s = remove_rooms ks (m.remove_room k s)

  unfoldable pub upsert_rooms : List RoomData → S → S
  unfolding preserve
  upsert_rooms [] s = s
  upsert_rooms (rd ∷ rds) s = upsert_rooms rds (m.upsert_room (preserve (m.find rd.room_id s) rd) s)

  unfoldable pub invite_rooms : List RoomData → S → S
  invite_rooms [] s = s
  invite_rooms (rd ∷ rds) s = invite_rooms rds (m.upsert_room rd s)

  unfoldable pub apply_rooms : RoomSyncUpdate → S → S
  unfolding remove_rooms upsert_rooms invite_rooms
  apply_rooms u s =
      invite_rooms u.invited_rooms
        (upsert_rooms u.rooms_to_upsert (remove_rooms u.rooms_to_remove s))

unfoldable pub add_avatars : List (Text × Text) → Map Text → Map Text
add_avatars [] avatars = avatars
add_avatars ((uid, url) ∷ rest) avatars = add_avatars rest (insert uid url avatars)

-- The avatars of another room are forgotten before those of this sync are added.
unfoldable pub gather_avatars : RoomSyncUpdate → Store → Store
unfolding add_avatars
gather_avatars u st =
    let old : Map Text =
      if not (is_empty st.last_applied_room) && not (st.last_applied_room == u.current_room_id)
      then []
      else st.member_avatars in
    record {
      member_avatars = add_avatars u.current_room_avatars old;
      last_applied_room = u.current_room_id;
    }

-- `timeline` says whether there is an open timeline; the user's own id is passed as the empty text.
module _ {S : Type 0} (m : RoomList S) (g : Engine) (has_row : Text → Bool) where
  unfoldable pub apply_room_sync_update : RoomSyncUpdate → Bool → Store → S → Store × S × List Call
  unfolding apply_rooms gather_avatars
  apply_room_sync_update u timeline st s =
      if u.current_room_updated && timeline
      then (let st' = gather_avatars u st in
          (
            st',
            apply_rooms m u s,
            append_timeline_for_room g has_row st'.member_avatars [] u.current_room_events,
          ))
      else (st, apply_rooms m u s, [])
