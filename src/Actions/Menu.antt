-- ===== src/Actions/Menu.antt =====
-- src/ui/handlers/room_context_menu.cpp: showTimelineContextMenu, the menu of a message.
use progressive_desktop.Base.{
  Bool, true, false, Option, none, some, List, [], ◌∷◌, ◌++◌, Text, text, is_empty, ◌==◌, not, ◌&&◌,
  ◌||◌, if◌then◌else◌, ℕ, get_elem?,
}
use progressive_desktop.Base.Int.{pos, ltb_ℤ}
use progressive_desktop.Engine.{DisplayedEvent, ReactionData, ApiResult}
use progressive_desktop.Actions.{
  redact_event, unpin_message, download_media, download_media_encrypted, Action, call,
  remove_reaction, set_pinned, clipboard, reply_in_thread, open_thread_view, re_request_key,
  explain, write_file, status, World, handle_reaction, handle_edit, handle_delete, handle_pin,
  handle_copy_link,
}

-- `unreact i` takes back our part in the i-th reaction of the row.
pub data Item : Type 0 where
  react : Text → Item
  unreact : ℕ → Item
  pin unpin thread_reply thread_view copy_link why_encrypted ask_again download copy_text edit
        delete :
      Item

-- What the dialogs behind the items answer, and what is read of an encrypted content: `session_id`,
-- `sender_key` and `device_id`, empty where they are missing.
pub record Answers : Type 0 where
  pub edited : Option Text
  pub delete_confirmed : Bool
  pub save_path : Text
  pub can_write : Bool
  pub has_decryptor : Bool
  pub session_id : Text → Text
  pub sender_key : Text → Text
  pub device_id : Text → Text

-- The message with the id, if the timeline has it; a message that is not there has empty fields.
module _ (w : World) (room : Text) (event_id : Text) (row : Option DisplayedEvent) where
  unfoldable pub field : (DisplayedEvent → Text) → Text
  field f = elim row [ none ↦ [] | some e ↦ f e ]

  unfoldable pub holds : (DisplayedEvent → Bool) → Bool
  holds f = elim row [ none ↦ false | some e ↦ f e ]

  unfoldable pub is_own : Bool
  unfolding holds
  is_own = holds (λ e. e.sender_id == w.user_id)

  -- The root of the thread that the message belongs to, empty for none.
  unfoldable pub thread_root_for_view : Text
  thread_root_for_view = elim row [
    | none ↦ []
    | some e ↦
        if ltb_ℤ (pos 0) e.thread_reply_count
        then event_id
        else if e.is_thread_reply && not (is_empty e.thread_root_id)
        then e.thread_root_id
        else []
  ]

  unfoldable pub can_view_thread : Bool
  unfolding holds
  can_view_thread = holds (λ e.
      ltb_ℤ (pos 0) e.thread_reply_count || (e.is_thread_reply && not (is_empty e.thread_root_id)))

  unfoldable pub is_system : Bool
  unfolding holds
  is_system = holds (λ e. e.event_type == text "progressive.system")

  unfoldable pub is_media_row : Bool
  unfolding field
  is_media_row =
      let kind = field (λ e. e.msgtype) in
      kind == text "m.image"
      || kind == text "m.video"
      || kind == text "m.audio"
      || kind == text "m.file"

  abbrev pub is_mine : List Text → Bool
  is_mine [] = false
  is_mine (u ∷ us) = u == w.user_id || is_mine us

  unfoldable pub reaction_at : ℕ → Option ReactionData
  reaction_at i = elim row [ none ↦ none | some e ↦ get_elem? e.reactions i ]

  -- The items that can be picked.
  unfoldable pub is_enabled : Item → Bool
  unfolding is_own can_view_thread is_system is_media_row holds field reaction_at
  is_enabled (unreact i) = elim (reaction_at i) [ none ↦ false | some r ↦ is_mine r.user_ids ]
  is_enabled pin = not (holds (λ e. e.is_pinned))
  is_enabled unpin = holds (λ e. e.is_pinned)
  is_enabled thread_reply = not is_system
  is_enabled thread_view = can_view_thread
  is_enabled why_encrypted = not (is_empty (field (λ e. e.decrypt_error)))
  is_enabled ask_again = not (is_empty (field (λ e. e.decrypt_error)))
  is_enabled download = is_media_row
  is_enabled copy_text = not (is_empty (field (λ e. e.body))) && not is_system
  is_enabled edit = is_own
  is_enabled _ = true

  unfoldable pub unreact_job : ReactionData → List Action
  unreact_job r =
      let redact = redact_event room r.reaction_event_id in
      if is_empty room
      then []
      else call redact
        ∷ (if (w.reply redact).ok
            then remove_reaction event_id r.emoji w.user_id ∷ status (text "Reaction removed.") ∷ []
            else [])

  unfoldable pub unreact_at : ℕ → List Action
  unfolding reaction_at unreact_job
  unreact_at i = elim (reaction_at i) [ none ↦ [] | some r ↦ unreact_job r ]

  unfoldable pub unpin_job : List Action
  unpin_job =
      let unpin = unpin_message room event_id in
      call unpin
      ∷ (if (w.reply unpin).ok
          then set_pinned event_id false ∷ status (text "Message unpinned.") ∷ []
          else [])

  unfoldable pub thread_target : Text
  unfolding thread_root_for_view
  thread_target = if is_empty thread_root_for_view then event_id else thread_root_for_view

  unfoldable pub request_key : Answers → List Action
  request_key a = elim row [
    | none ↦ []
    | some e ↦
        let sid = a.session_id e.content_json in
        let sender = a.sender_key e.content_json in
        if not (is_empty sid) && not (is_empty sender) && a.has_decryptor
        then re_request_key room e.sender_id sender sid (a.device_id e.content_json)
          ∷ status (text "Key request sent to " ++ e.sender_id)
          ∷ []
        else []
  ]

  unfoldable pub saved : Text → Bool → ApiResult → List Action
  saved path can_write r =
      if not w.alive
      then []
      else if not r.ok || is_empty r.content
      then status (text "Download failed.") ∷ []
      else if can_write
      then write_file path r.content ∷ status (text "Saved to " ++ path) ∷ []
      else status (text "Could not write " ++ path) ∷ []

  unfoldable pub save_media : Text → Bool → List Action
  unfolding saved
  save_media path can_write = elim row [
    | none ↦ []
    | some e ↦
        let fetch =
          if is_empty e.media_key
          then download_media e.mxc_url
          else download_media_encrypted e.mxc_url e.media_key e.media_iv e.media_sha256 in
        if is_empty path || is_empty e.mxc_url
        then []
        else call fetch ∷ saved path can_write (w.reply fetch)
  ]

  -- The item that was picked. `encrypted` is the flag of the room in the list, false where the list does
  -- not have it.
  unfoldable pub selected : Bool → Answers → Item → List Action
  unfolding field unreact_at unpin_job thread_target request_key save_media
  selected encrypted a (react emoji) = handle_reaction w room encrypted event_id emoji
  selected encrypted a (unreact i) = unreact_at i
  selected encrypted a pin = handle_pin w room event_id
  selected encrypted a unpin = unpin_job
  selected encrypted a thread_reply = reply_in_thread thread_target room ∷ []
  selected encrypted a thread_view = open_thread_view thread_target room ∷ []
  selected encrypted a copy_link = handle_copy_link w room event_id
  selected encrypted a why_encrypted = explain (field (λ e. e.decrypt_error)) ∷ []
  selected encrypted a ask_again = request_key a
  selected encrypted a download = save_media a.save_path a.can_write
  selected encrypted a copy_text = clipboard (field (λ e. e.body)) ∷ []
  selected encrypted a edit = handle_edit w room encrypted event_id row a.edited
  selected encrypted a delete = handle_delete w room event_id a.delete_confirmed

  -- The menu of the message, with the item that was picked, if one was.
  unfoldable pub show_timeline_context_menu : Bool → Answers → Option Item → List Action
  unfolding is_enabled selected
  show_timeline_context_menu encrypted a none = []
  show_timeline_context_menu encrypted a (some item) =
      if is_enabled item then selected encrypted a item else []
