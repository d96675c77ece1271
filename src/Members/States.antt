-- ===== src/Members/States.antt =====
-- What src/ui/room/room_data_loader.cpp, batchLoadRoomStates, may change of a room in the list.
use progressive_desktop.Base.{
  ◌≡◌, Bool, true, arith, Text, text, is_empty, ◌==◌, not, ◌&&◌, ◌||◌, if◌then◌else◌,
}
use progressive_desktop.Rooms.{RoomData}
use progressive_desktop.Members.{
  StateReplies, has_content, load_name, load_avatar, load_encryption, load_room_state,
}

module _ (extract : Text → Text → Text) (s : StateReplies) (rd : RoomData) where
  abbrev pub is_unnamed : Bool
  is_unnamed = rd.name == rd.room_id || is_empty rd.name

  -- The state of a room that is loaded later only fills in what is missing: a name replaces none but the
  -- room's id, an avatar replaces none, encryption is switched on and never off, counters, invitation and
  -- id stay, and the room is not asked for again.
  load_room_state_fills :
      let rd' = load_room_state extract s rd in
      (rd'.name ≡ (
        if has_content s.name_reply
          && not (is_empty (extract s.name_reply.content (text "name")))
          && is_unnamed
        then extract s.name_reply.content (text "name")
        else rd.name))
      × (rd'.avatar_url ≡ (
          if is_empty rd.avatar_url && has_content s.avatar_reply
          then extract s.avatar_reply.content (text "url")
          else rd.avatar_url))
      × (rd'.is_encrypted ≡ (rd.is_encrypted || has_content s.encryption_reply))
      × (rd'.room_id ≡ rd.room_id)
      × (rd'.is_invite ≡ rd.is_invite)
      × (rd'.unread_count ≡ rd.unread_count)
      × (rd'.highlight_count ≡ rd.highlight_count)
      × (rd'.state_loaded ≡ true)
  unfolding load_room_state load_name load_avatar load_encryption
  load_room_state_fills = ground arith
