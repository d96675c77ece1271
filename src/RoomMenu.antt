-- ===== src/RoomMenu.antt =====
-- src/ui/handlers/room_context_menu.cpp: onRoomListContextMenu, the menu of a room in the list. The list
-- with its hidden rooms is the engine's RoomState behind src/ui/room_list_model.hpp, the stored ones are
-- the engine's SessionStore: `RoomModel` and `HiddenStore` have the operations that are called, and
-- `IsRoomModel` and `IsHiddenStore` what they promise.
pub mod Entries
use progressive_desktop.Base.{
  ◌≡◌, Bool, true, false, Option, none, some, List, [], ◌∷◌, ◌++◌, Text, text, is_empty, ◌==◌, not,
  ◌&&◌, if◌then◌else◌,
}
use progressive_desktop.Engine.{ApiResult}
use progressive_desktop.Rooms.{RoomData, RoomList, IsRoomList}

-- `write` is the assignment through the pointer that `at` gives.
pub record RoomModel (S : Type 0) : Type 0 where
  pub list : RoomList S
  pub open list use *
  pub write : RoomData → S → S
  pub is_hidden : Text → S → Bool
  pub hide_room : Text → S → S
  pub unhide_room : Text → S → S

pub record IsRoomModel {S : Type 0} (m : RoomModel S) : Type 0 where
  pub listed : IsRoomList m.list
  pub find_id : (k : Text) (r : RoomData) (s : S) → m.find k s ≡ some r → r.room_id ≡ k
  pub find-write :
      (k : Text) (old r : RoomData) (s : S)
      → m.find r.room_id s ≡ some old
      → m.find k (m.write r s) ≡ (if r.room_id == k then some r else m.find k s)
  pub find-hide : (k j : Text) (s : S) → m.find k (m.hide_room j s) ≡ m.find k s
  pub find-unhide : (k j : Text) (s : S) → m.find k (m.unhide_room j s) ≡ m.find k s
  pub hidden-hide :
      (k j : Text) (s : S)
      → m.is_hidden k (m.hide_room j s) ≡ (if j == k then true else m.is_hidden k s)
  pub hidden-unhide :
      (k j : Text) (s : S)
      → m.is_hidden k (m.unhide_room j s) ≡ (if j == k then false else m.is_hidden k s)
  pub hidden-remove : (k j : Text) (s : S) → m.is_hidden k (m.remove_room j s) ≡ m.is_hidden k s
  pub hidden-write :
      (k : Text) (r : RoomData) (s : S) → m.is_hidden k (m.write r s) ≡ m.is_hidden k s

pub record HiddenStore (T : Type 0) : Type 0 where
  pub is_saved : Text → T → Bool
  pub save_hidden_room : Text → T → T
  pub remove_hidden_room : Text → T → T

pub record IsHiddenStore {T : Type 0} (h : HiddenStore T) : Type 0 where
  pub saved-save :
      (k j : Text) (t : T)
      → h.is_saved k (h.save_hidden_room j t) ≡ (if j == k then true else h.is_saved k t)
  pub saved-remove :
      (k j : Text) (t : T)
      → h.is_saved k (h.remove_hidden_room j t) ≡ (if j == k then false else h.is_saved k t)

pub data Choice : Type 0 where
  leave accept reject forget hide : Choice

pub data Call : Type 0 where
  leave_room join_room forget_room : Text → Call

-- One use of the menu. `picked` is none where it was closed; `confirmed` answers the question before a
-- room is left; `alive` says that window and menu are there when a reply comes, `store` that there is a
-- client with a session store.
pub record Use : Type 0 where
  pub room : RoomData
  pub picked : Option Choice
  pub confirmed : Bool
  pub alive : Bool
  pub store : Bool
  pub reply : Call → ApiResult

pub record State (S T : Type 0) : Type 0 where
  pub rooms : S
  pub saved : T
  pub status : Text
  pub calls : List Call
  pub left : List Text

-- What of the menu is visible.
unfoldable pub is_offered : RoomData → Choice → Bool
is_offered r leave = not r.is_invite
is_offered r forget = not r.is_invite
is_offered r accept = r.is_invite
is_offered r reject = r.is_invite
is_offered r hide = true

unfoldable pub reason : ApiResult → Text
reason r = if is_empty r.code then r.message else text "[" ++ r.code ++ text "] " ++ r.message

module _ {S T : Type 0} (m : RoomModel S) (h : HiddenStore T) (u : Use) where
  unfoldable pub tell : Text → State S T → State S T
  tell words s = record s { status = words }

  unfoldable pub ask : Call → State S T → State S T
  ask c s = record s { calls = s.calls ++ c ∷ [] }

  unfoldable pub remove : Text → State S T → State S T
  remove rid s = record s { rooms = m.remove_room rid s.rooms }

  -- The room counts as hidden no more, here and in the store.
  unfoldable pub unhide : Text → State S T → State S T
  unhide rid s = record s {
    rooms = m.unhide_room rid s.rooms;
    saved = if u.store then h.remove_hidden_room rid s.saved else s.saved;
  }

  unfoldable pub leave_answer : Text → ApiResult → State S T → State S T
  unfolding tell ask remove unhide reason
  leave_answer rid res s =
      if not u.alive
      then s
      else if res.ok
      then ask (forget_room rid) (
          unhide rid (
            let gone = remove rid (tell (text "Left room.") s) in
            record gone { left = gone.left ++ rid ∷ [] }))
      else tell (text "Failed to leave: " ++ reason res) s

  unfoldable pub join_answer : Text → ApiResult → State S T → State S T
  unfolding tell
  join_answer rid res s =
      if not u.alive
      then s
      else if res.ok
      then elim (m.find rid s.rooms) [
        | none ↦ tell (text "Joined room.") s
        | some rd ↦ record (tell (text "Joined room.") s) {
          rooms = m.write (record rd { is_invite = false }) s.rooms;
        }
      ]
      else tell (text "Failed to join: " ++ res.message) s

  unfoldable pub reject_answer : Text → ApiResult → State S T → State S T
  unfolding tell ask remove unhide reason
  reject_answer rid res s =
      if not u.alive
      then s
      else if res.ok
      then ask (forget_room rid) (unhide rid (remove rid (tell (text "Invite rejected.") s)))
      else tell (text "Failed to reject: " ++ reason res) s

  unfoldable pub forget_answer : Text → ApiResult → State S T → State S T
  unfolding tell remove unhide reason
  forget_answer rid res s =
      if not u.alive
      then s
      else remove rid (
          unhide rid (
            tell
              (if res.ok
                then text "Room forgotten."
                else text "Left but forget failed: " ++ reason res ++ text " (hidden from list)")
              s))

  -- First leave, and only then forget.
  unfoldable pub forget_job : Text → State S T → State S T
  unfolding ask tell reason forget_answer
  forget_job rid s =
      let left = ask (leave_room rid) s in
      if (u.reply (leave_room rid)).ok
      then forget_answer rid (u.reply (forget_room rid)) (ask (forget_room rid) left)
      else if not u.alive
      then left
      else tell (text "Leave failed: " ++ reason (u.reply (leave_room rid))) left

  unfoldable pub hide_here : Text → State S T → State S T
  unfolding tell remove
  hide_here rid s = tell (text "Hidden from list (server state unchanged).") (
      remove rid (record s {
        rooms = m.hide_room rid s.rooms;
        saved = if u.store then h.save_hidden_room rid s.saved else s.saved;
      }))

  unfoldable pub choose : Choice → Text → State S T → State S T
  unfolding tell ask leave_answer join_answer reject_answer forget_job hide_here
  choose leave rid s =
      if u.confirmed
      then leave_answer rid (u.reply (leave_room rid))
          (ask (leave_room rid) (tell (text "Leaving room...") s))
      else s
  choose accept rid s =
      join_answer rid (u.reply (join_room rid))
        (ask (join_room rid) (tell (text "Joining room...") s))
  choose reject rid s =
      reject_answer rid (u.reply (leave_room rid))
        (ask (leave_room rid) (tell (text "Rejecting invite...") s))
  choose forget rid s = forget_job rid (tell (text "Leaving + forgetting room...") s)
  choose hide rid s = hide_here rid s

  -- The menu over a room, up to the reply of the last call.
  unfoldable pub on_room_list_context_menu : State S T → State S T
  unfolding choose is_offered
  on_room_list_context_menu s = elim u.picked [
    | none ↦ s
    | some c ↦ if is_offered u.room c then choose c u.room.room_id s else s
  ]
