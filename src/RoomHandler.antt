-- ===== src/RoomHandler.antt =====
-- src/ui/handlers/room_handler.cpp: the room that is open, its older pages, and invitations. The list of
-- rooms is `RoomMenu.RoomModel`, the parsed page an argument, and what the timeline is asked for a list
-- of calls in their order.
pub mod Page
pub mod Paging
pub mod Rows
use progressive_desktop.Base.{
  ℕ, Bool, true, false, Option, none, some, List, [], ◌∷◌, ◌++◌, Text, text, is_empty, ◌==◌, not,
  ◌&&◌, ◌||◌, if◌then◌else◌, Map, lookup, insert, length, ltb,
}
use progressive_desktop.Engine.{DisplayedEvent, ApiResult}
use progressive_desktop.Rooms.{RoomData}
use progressive_desktop.RoomMenu.{RoomModel, reason}
use progressive_desktop.RoomHandler.Page.{
  Engine, RowCall, append_front, ReadPage, read_page, next_batch, Answer, failed, unparsed, page,
}

-- What is shown and what is asked for: `cache` is `memberAvatarCache_`, with the names under the user's
-- id and "/name"; `requests` are the calls of the homeserver.
pub data Request : Type 0 where
  get_messages : Text → Text → Request
  join_room leave_room forget_room : Text → Request
  set_read_marker : Text → Text → Request

pub record View (S : Type 0) : Type 0 where
  pub current_room : Text
  pub prev_batch : Text
  pub cache : Map Text
  pub load_more_enabled : Bool
  pub load_more_shown : Bool
  pub timeline_shown : Bool
  pub log_checked : Bool
  pub thread_open : Bool
  pub chat_room : Text
  pub chat_encrypted : Bool
  pub status : Text
  pub rooms : S
  pub timeline : List RowCall
  pub requests : List Request

pub record MemberInfo : Type 0 where
  pub user_id : Text
  pub display_name : Text
  pub avatar_url : Text

abbrev pub name_key : Text → Text
name_key id = id ++ text "/name"

-- The callback of `loadMembers`: what it puts into the cache.
unfoldable pub learn_members : List MemberInfo → Map Text → Map Text
learn_members [] c = c
learn_members (m ∷ ms) c =
    let c' = if is_empty m.avatar_url then c else insert m.user_id m.avatar_url c in
    learn_members ms
      (if is_empty m.display_name then c' else insert (name_key m.user_id) m.display_name c')

-- `refreshMemberCache`.
unfoldable pub put_all : (Text → Text) → List (Text × Text) → Map Text → Map Text
put_all key [] c = c
put_all key ((id, v) ∷ rest) c = put_all key rest (insert (key id) v c)

unfoldable pub refresh_member_cache : List (Text × Text) → List (Text × Text) → Map Text → Map Text
unfolding put_all
refresh_member_cache avatars names c = put_all name_key names (put_all (λ id. id) avatars c)

-- The avatars that rows of the timeline get once the members are known.
unfoldable pub fill_row : Map Text → DisplayedEvent → DisplayedEvent
fill_row c d =
    if not (is_empty d.avatar_url) || is_empty d.sender_id
    then d
    else elim (lookup d.sender_id c) [ none ↦ d | some url ↦ record d { avatar_url = url } ]

module _ {S : Type 0} (m : RoomModel S) (decimal : ℕ → Text) where
  unfoldable pub tell : Text → View S → View S
  tell words v = record v { status = words }

  unfoldable pub ask : Request → View S → View S
  ask r v = record v { requests = v.requests ++ r ∷ [] }

  -- `updateEncryptionFlag`.
  unfoldable pub update_encryption_flag : Bool → View S → View S
  update_encryption_flag encrypted v = record v { chat_encrypted = encrypted }

  -- The room was read: both counters go back.
  unfoldable pub mark_read : RoomData → View S → View S
  mark_read r v =
      if ltb 0 r.unread_count || ltb 0 r.highlight_count
      then record v { rooms = m.write (record r { unread_count = 0; highlight_count = 0 }) v.rooms }
      else v

  -- `onRoomClicked`, up to the loading of members and history.
  unfoldable pub on_room_clicked : Option RoomData → View S → View S
  unfolding mark_read
  on_room_clicked none v = v
  on_room_clicked (some r) v = record (mark_read r v) {
    current_room = r.room_id;
    thread_open = false;
    prev_batch = [];
    log_checked = false;
    chat_room = r.room_id;
    chat_encrypted = r.is_encrypted;
    timeline = v.timeline ++ RowCall.clear ∷ [];
    timeline_shown = true;
    load_more_shown = false;
  }

  -- The callback of `loadHistory`, after a room was opened: `last` is the id of the last row.
  unfoldable pub history_loaded : Bool → Text → Option Text → ℕ → Text → View S → View S
  unfolding tell ask
  history_loaded logged_in room last count batch v =
      let shown = tell (text "Loaded " ++ decimal count ++ text " messages.") (record v {
        prev_batch = batch;
        load_more_shown = v.load_more_shown || not (is_empty batch);
      }) in
      if ltb 0 count
      then elim last [
        | none ↦ shown
        | some id ↦
            if logged_in && not (is_empty id) then ask (set_read_marker room id) shown else shown
      ]
      else v

  -- The same after a thread was closed: no read marker and no word.
  unfoldable pub history_reloaded : ℕ → Text → View S → View S
  history_reloaded count batch v =
      if ltb 0 count
      then record v {
        prev_batch = batch;
        load_more_shown = v.load_more_shown || not (is_empty batch);
      }
      else v

  -- `onLoadMoreClicked`: the request.
  unfoldable pub on_load_more_clicked : Bool → View S → View S
  unfolding tell ask
  on_load_more_clicked client v =
      if is_empty v.current_room || not client || is_empty v.prev_batch
      then v
      else ask (get_messages v.current_room v.prev_batch)
          (record (tell (text "Loading older messages...") v) { load_more_enabled = false })

  unfoldable pub show_page : ReadPage → View S → View S
  unfolding tell
  show_page p v =
      tell (text "Loaded " ++ decimal (length p.events) ++ text " older message(s).") (record v {
        timeline = v.timeline ++ p.calls ++ append_front p.events ∷ [];
        load_more_shown = v.load_more_shown && not (is_empty v.prev_batch);
        load_more_enabled = true;
      })

  -- The reply to it. The timeline is asked for its rows as it stands: `has_row`.
  unfoldable pub page_loaded : Engine → (Text → Bool) → Answer → View S → View S
  unfolding tell show_page next_batch
  page_loaded g has_row failed v = record (tell (text "Failed to load older messages.") v) {
    load_more_enabled = true;
  }
  page_loaded g has_row unparsed v = record (tell (text "Failed to parse older messages.") v) {
    load_more_enabled = true;
  }
  page_loaded g has_row (page end start none) v = record (tell (text "No older messages.") v) {
    prev_batch = next_batch end start;
    load_more_enabled = true;
  }
  page_loaded g has_row (page end start (some chunk)) v =
      show_page (read_page g has_row v.cache chunk) (record v { prev_batch = next_batch end start })

  -- `acceptInvite`, with the reply and whether the handler is still there.
  unfoldable pub accept_invite : Bool → Text → ApiResult → Bool → View S → View S
  unfolding tell ask on_room_clicked reason
  accept_invite client room r alive v =
      let asked = ask (join_room room) (tell (text "Accepting invite...") v) in
      let entered = elim (m.find room v.rooms) as (λ x. View S) [
        | none ↦ asked
        | some rd ↦
            let joined = record rd { is_invite = false; unread_count = 0 } in
            on_room_clicked (some joined) (record asked { rooms = m.write joined v.rooms })
      ] in
      if not client
      then v
      else if not alive
      then asked
      else if r.ok
      then tell (text "Joined room.") entered
      else tell (text "Failed: " ++ reason r) asked

  unfoldable pub reject_invite : Bool → Text → ApiResult → Bool → View S → View S
  unfolding tell ask reason
  reject_invite client room r alive v =
      let asked = ask (leave_room room) (tell (text "Rejecting invite...") v) in
      if not client
      then v
      else if not alive
      then asked
      else if r.ok
      then ask (forget_room room)
          (tell (text "Invite rejected.") (record asked { rooms = m.remove_room room v.rooms }))
      else tell (text "Failed: " ++ reason r) asked
