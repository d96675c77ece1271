-- ===== src/Attach.antt =====
-- src/ui/chat/chat_view.cpp: files and quick reactions, doAttachFile and doQuickReact. A run of the pool
-- job and of the callback it queues is one list of actions, in their order. The server, the decryptor,
-- the media cipher and Qt's table of content types are the fields of `World`.
pub mod Secrecy
use progressive_desktop.Base.{
  ℕ, Bool, true, false, Option, none, some, List, [], ◌∷◌, ◌++◌, Text, text, is_empty, not, ◌&&◌,
  ◌||◌, if◌then◌else◌,
}
use progressive_desktop.Base.Int.{ℤ}
use progressive_desktop.Engine.{DisplayedEvent}

pub record Reply : Type 0 where
  pub ok : Bool
  pub result : Text
  pub message : Text

-- Calls of the homeserver; `upload_media` has the bytes, the file's name and its content type.
pub data Call : Type 0 where
  upload_media : Text → Text → Text → Call
  send_encrypted_event : Text → Text → Call
  send_message_event : Text → Text → Call
  send_reaction : Text → Text → Text → Call
  share_room_key : Text → Call

pub data Action : Type 0 where
  call : Call → Action
  mark_fresh_upload : Text → Action
  append_back : DisplayedEvent → Action
  add_reaction : Text → Text → Text → Text → Action

-- `media_key_iv` is the pair that `generateMediaKeyIv` makes, if it makes one. `alive` says that the
-- view is there when the job runs, `alive_in_reply` that it is when what the job queued is run.
pub record World : Type 0 where
  pub blank : DisplayedEvent
  pub user_id : Text
  pub ready : Bool
  pub alive : Bool
  pub alive_in_reply : Bool
  pub session : Text
  pub media_key_iv : Option (Text × Text)
  pub aes_ctr : Text → Text → Text → Text
  pub sha256 : Text → Text
  pub encrypt : Text → Text
  pub key_shared : Bool
  pub reply : Call → Reply
  pub now : ℤ

-- A file: its name, its content type, whether that is an image's, a video's or a sound's, and its
-- bytes, if it can be opened.
pub record File : Type 0 where
  pub name : Text
  pub content_type : Text
  pub is_image : Bool
  pub is_video : Bool
  pub is_audio : Bool
  pub bytes : Option Text

-- Where the media of an echo is found, and how it is decrypted.
pub record Media : Type 0 where
  pub mxc : Text
  pub key : Text
  pub iv : Text
  pub sha : Text

unfoldable pub media_type : File → Text
media_type f =
    if f.is_image
    then text "m.image"
    else if f.is_video
    then text "m.video"
    else if f.is_audio
    then text "m.audio"
    else text "m.file"

module _ (w : World) (room : Text) where
  -- What is queued for the interface does nothing once the view is gone.
  unfoldable pub queued : List Action → List Action
  queued actions = if w.alive_in_reply then actions else []

  unfoldable pub fail_notice : Text → List Action
  unfolding queued
  fail_notice message =
      queued (append_back (record w.blank { msgtype = text "m.notice"; body = message }) ∷ [])

  -- The row of the file, once its event was accepted.
  unfoldable pub file_echo : File → Media → Reply → List Action
  unfolding queued media_type
  file_echo f m r = queued (
      if r.ok
      then append_back (record w.blank {
        event_id = r.result;
        sender_id = w.user_id;
        sender_name = text "you";
        event_type = text "m.room.message";
        msgtype = media_type f;
        mxc_url = m.mxc;
        media_key = m.key;
        media_iv = m.iv;
        media_sha256 = m.sha;
        body = f.name;
        origin_server_ts = w.now;
      })
        ∷ []
      else [])

  -- The content of an encrypted file's event.
  unfoldable pub file_body : File → Media → Text
  unfolding media_type
  file_body f m =
      text "{\"msgtype\":\""
      ++ media_type f
      ++ text "\",\"body\":\""
      ++ f.name
      ++ text "\",\"filename\":\""
      ++ f.name
      ++ text "\",\"file\":{\"url\":\""
      ++ m.mxc
      ++ text "\",\"key\":\""
      ++ m.key
      ++ text "\",\"iv\":\""
      ++ m.iv
      ++ text "\",\"hashes\":{\"sha256\":\""
      ++ m.sha
      ++ text "\"},\"v\":\"v2\",\"mimetype\":\""
      ++ f.content_type
      ++ text "\"},\"info\":{\"mimetype\":\""
      ++ f.content_type
      ++ text "\"}}"

  unfoldable pub share_first : List Action
  share_first = if w.key_shared then [] else call (share_room_key room) ∷ []

  -- Behind the upload of the ciphertext.
  unfoldable pub send_file : File → Media → List Action
  unfolding fail_notice file_echo file_body share_first
  send_file f m =
      let inner =
        text "{\"type\":\"m.room.message\",\"content\":"
        ++ file_body f m
        ++ text ",\"room_id\":\""
        ++ room
        ++ text "\"}" in
      let cipher = w.encrypt inner in
      if is_empty cipher
      then fail_notice (text "❌ Encryption failed")
      else share_first
        ++ call (send_encrypted_event room cipher)
          ∷ file_echo f m (w.reply (send_encrypted_event room cipher))

  unfoldable pub upload_encrypted : File → Text → Text → Text → List Action
  unfolding send_file fail_notice
  upload_encrypted f bytes key iv =
      let sealed = w.aes_ctr bytes key iv in
      let request = upload_media sealed f.name f.content_type in
      let up = w.reply request in
      if is_empty sealed
      then fail_notice (text "❌ Media encryption failed")
      else call request
        ∷ (if up.ok
            then mark_fresh_upload up.result
              ∷ send_file f (record { mxc = up.result; key = key; iv = iv; sha = w.sha256 bytes })
            else fail_notice (text "❌ Upload failed: " ++ up.message))

  unfoldable pub encrypted_file : File → Text → List Action
  unfolding upload_encrypted fail_notice
  encrypted_file f bytes =
      if is_empty w.session
      then fail_notice (text "❌ Failed to encrypt media")
      else elim w.media_key_iv [
        | none ↦ fail_notice (text "❌ Media key generation failed")
        | some (key, iv) ↦ upload_encrypted f bytes key iv
      ]

  unfoldable pub plain_file : File → Text → List Action
  unfolding fail_notice file_echo media_type
  plain_file f bytes =
      let request = upload_media bytes f.name f.content_type in
      let up = w.reply request in
      let event = send_message_event room (
        text "{\"msgtype\":\""
        ++ media_type f
        ++ text "\",\"body\":\""
        ++ f.name
        ++ text "\",\"url\":\""
        ++ up.result
        ++ text "\"}") in
      call request
      ∷ (if up.ok
          then mark_fresh_upload up.result
            ∷ call event
            ∷ file_echo f (record { mxc = up.result; key = []; iv = []; sha = [] }) (w.reply event)
          else fail_notice (text "❌ Upload failed: " ++ up.message))

  -- `doAttachFile`; `encrypted` is the flag of the view.
  unfoldable pub attach_file : Bool → Bool → File → List Action
  unfolding encrypted_file plain_file
  attach_file client encrypted f = if is_empty room || not client then [] else elim f.bytes [
    | none ↦ []
    | some bytes ↦
        if encrypted && w.alive && w.ready then encrypted_file f bytes else plain_file f bytes
  ]

  -- The call of a quick reaction, if there is one, and its reply: a failure of the encryption is a
  -- reply that is not ok.
  unfoldable pub react_job : Bool → Text → Text → List Action × Reply
  unfolding share_first
  react_job encrypted event_id emoji =
      let content =
        text "{\"m.relates_to\":{\"rel_type\":\"m.annotation\",\"event_id\":\""
        ++ event_id
        ++ text "\",\"key\":\""
        ++ emoji
        ++ text "\"}}" in
      let cipher = w.encrypt (
        text "{\"type\":\"m.reaction\",\"content\":"
        ++ content
        ++ text ",\"room_id\":\""
        ++ room
        ++ text "\"}") in
      let none_sent : Reply = record {
        ok = false;
        result = [];
        message = text "reaction encryption failed";
      } in
      let plain = send_reaction room event_id emoji in
      let secret = send_encrypted_event room cipher in
      if encrypted && w.alive && w.ready
      then (if is_empty w.session
          then ([], none_sent)
          else if is_empty cipher
          then (share_first, none_sent)
          else (share_first ++ call secret ∷ [], w.reply secret))
      else (call plain ∷ [], w.reply plain)

  -- `doQuickReact`: the reaction goes to the last row, where that row has an id.
  unfoldable pub quick_react : Bool → Bool → Option DisplayedEvent → Text → List Action
  unfolding react_job queued
  quick_react client encrypted last emoji =
      let sent = λ (id : Text). react_job encrypted id emoji in
      if is_empty room || not client then [] else elim last [
        | none ↦ []
        | some e ↦
            if is_empty e.event_id
            then []
            else (sent e.event_id).0
              ++ queued (
                  if (sent e.event_id).1.ok
                  then add_reaction e.event_id emoji w.user_id (sent e.event_id).1.result ∷ []
                  else [])
      ]
