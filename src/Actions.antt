-- ===== src/Actions.antt =====
-- src/ui/timeline/timeline_handlers.cpp: reacting to a message, editing, deleting and pinning it. A run of
-- the dialog, of the pool job and of the callback it queues is one list of actions, in their order.
pub mod Menu
pub mod Secrecy
use progressive_desktop.Base.{
  Bool, true, false, Option, none, some, List, [], ◌∷◌, ◌++◌, Text, text, is_empty, not, ◌&&◌, ◌||◌,
  if◌then◌else◌,
}
use progressive_desktop.Engine.{DisplayedEvent, ApiResult}
use progressive_desktop.Json.{escape}

-- Calls of the homeserver: the room, the event, and what else is handed over.
pub data Call : Type 0 where
  send_encrypted_event : Text → Text → Call
  send_reaction : Text → Text → Text → Call
  edit_message : Text → Text → Text → Call
  redact_event : Text → Text → Call
  pin_message unpin_message : Text → Text → Call
  share_room_key : Text → Call
  download_media : Text → Call
  download_media_encrypted : Text → Text → Text → Text → Call

pub data Action : Type 0 where
  call : Call → Action
  add_reaction : Text → Text → Text → Text → Action
  remove_reaction : Text → Text → Text → Action
  update_body : Text → Text → Action
  mark_deleted : Text → Action
  set_pinned : Text → Bool → Action
  clipboard : Text → Action
  reply_in_thread : Text → Text → Action
  open_thread_view : Text → Text → Action
  re_request_key : Text → Text → Text → Text → Text → Action
  explain : Text → Action
  write_file : Text → Text → Action
  status : Text → Action

-- `ready` says that there is a decryptor and that it is initialised; `alive` that the window is there
-- when a reply comes; `trimmed` is `QString::trimmed`.
pub record World : Type 0 where
  pub user_id : Text
  pub ready : Bool
  pub session : Text
  pub encrypt : Text → Text
  pub key_shared : Bool
  pub reply : Call → ApiResult
  pub alive : Bool
  pub trimmed : Text → Text

module _ (w : World) (room : Text) where
  -- The calls that bring a ciphertext of `inner` out, and whether it arrived.
  unfoldable pub send_sealed : Text → List Action × Bool
  send_sealed inner =
      let event = send_encrypted_event room (w.encrypt inner) in
      if is_empty w.session || is_empty (w.encrypt inner) then ([], false) else (
        (if w.key_shared then [] else call (share_room_key room) ∷ []) ++ call event ∷ [],
        (w.reply event).ok,
      )

  -- What is done with a reply is done where it is good and the window is still there.
  unfoldable pub answered : Bool → List Action → List Action
  answered ok actions = if w.alive && ok then actions else []

  unfoldable pub reaction_inner : Text → Text → Text
  reaction_inner event_id emoji =
      text "{\"type\":\"m.reaction\",\"content\":"
      ++ (text "{\"m.relates_to\":{\"rel_type\":\"m.annotation\",\"event_id\":\""
          ++ event_id
          ++ text "\",\"key\":\""
          ++ emoji
          ++ text "\"}}")
      ++ text ",\"room_id\":\""
      ++ room
      ++ text "\"}"

  -- `handleReaction`, from the emoji that is picked.
  unfoldable pub handle_reaction : Bool → Text → Text → List Action
  unfolding send_sealed answered reaction_inner
  handle_reaction encrypted event_id emoji =
      let plain = send_reaction room event_id emoji in
      let sealed = send_sealed (reaction_inner event_id emoji) in
      let shown =
        add_reaction event_id emoji w.user_id
          (w.reply
            (send_encrypted_event room (w.encrypt (reaction_inner event_id emoji)))).content in
      let shown_plain = add_reaction event_id emoji w.user_id (w.reply plain).content in
      if encrypted && w.ready
      then sealed.0 ++ answered sealed.1 (shown ∷ status (text "Reaction sent.") ∷ [])
      else call plain
        ∷ answered (w.reply plain).ok (shown_plain ∷ status (text "Reaction sent.") ∷ [])

  unfoldable pub edit_inner : Text → Text → Text
  edit_inner event_id body =
      text "{\"type\":\"m.room.message\",\"content\":{\"msgtype\":\"m.text\",\"body\":\""
      ++ (escape body
          ++ (text "\",\"m.new_content\":{\"msgtype\":\"m.text\",\"body\":\""
              ++ (escape body
                  ++ (text "\"},\"m.relates_to\":{\"rel_type\":\"m.replace\",\"event_id\":\""
                      ++ event_id
                      ++ text "\"}},\"room_id\":\""
                      ++ room
                      ++ text "\"}"))))

  unfoldable pub edit_job : Bool → Text → Text → List Action
  unfolding send_sealed answered edit_inner
  edit_job encrypted event_id body =
      let plain = edit_message room event_id body in
      let sealed = send_sealed (edit_inner event_id body) in
      let shown = update_body event_id body ∷ status (text "Message edited.") ∷ [] in
      if encrypted && w.ready
      then sealed.0 ++ answered sealed.1 shown
      else call plain ∷ answered (w.reply plain).ok shown

  -- `handleEdit`: the row, if the timeline has it, and the text of the dialog, if it was accepted.
  unfoldable pub handle_edit : Bool → Text → Option DisplayedEvent → Option Text → List Action
  unfolding edit_job
  handle_edit encrypted event_id none typed = []
  handle_edit encrypted event_id (some row) none = []
  handle_edit encrypted event_id (some row) (some body) =
      if is_empty (w.trimmed body) then [] else edit_job encrypted event_id body

  -- `handleDelete`, with the answer to its question.
  unfoldable pub handle_delete : Text → Bool → List Action
  unfolding answered
  handle_delete event_id confirmed =
      let redact = redact_event room event_id in
      if confirmed
      then call redact
        ∷ answered (w.reply redact).ok
            (mark_deleted event_id ∷ status (text "Message deleted.") ∷ [])
      else []

  unfoldable pub handle_pin : Text → List Action
  unfolding answered
  handle_pin event_id =
      let pin = pin_message room event_id in
      call pin
      ∷ answered (w.reply pin).ok (set_pinned event_id true ∷ status (text "Message pinned.") ∷ [])

  unfoldable pub handle_copy_link : Text → List Action
  handle_copy_link event_id =
      clipboard (text "https://matrix.to/#/" ++ room ++ text "/" ++ event_id)
      ∷ status (text "Permalink copied.")
      ∷ []
