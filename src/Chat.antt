-- ===== src/Chat.antt =====
-- src/ui/chat/chat_view.cpp: sending from the message field. The pool job and the callbacks that it
-- queues for the interface thread are one sequence of actions, in the order in which they happen.
pub mod Routing
pub mod Echo
use progressive_desktop.Base.{
  ℕ, Bool, true, false, Option, none, some, List, [], ◌∷◌, ◌++◌, Text, text, is_empty, take, not,
  ◌&&◌, if◌then◌else◌, ◌==◌, ◌||◌,
}
use progressive_desktop.Base.Int.{ℤ}
use progressive_desktop.Engine.{DisplayedEvent}
use progressive_desktop.Json.{escape}

-- The fields of `ChatView` that say where a message goes.
pub record Chat : Type 0 where
  pub room_id : Text
  pub thread_root : Text
  pub encrypted : Bool

pub set_current_room : Text → Text → Bool → Chat → Chat
set_current_room room root is_encrypted c = record {
  room_id = room;
  thread_root = root;
  encrypted = is_encrypted;
}

pub clear : Chat → Chat
clear c = record { room_id = []; thread_root = []; encrypted = false }

-- Calls of the homeserver.
pub data Call : Type 0 where
  send_message : Text → Text → Call
  send_typed_message : Text → Text → Text → Call
  send_thread_reply : Text → Text → Text → Call
  send_encrypted_event : Text → Text → Call
  share_room_key : Text → Call

pub record Reply : Type 0 where
  pub ok : Bool
  pub event_id : Text
  pub message : Text

-- What the job meets: the decryptor, the homeserver's replies, the clock, and whether the view is
-- still alive when the job runs and when its callback runs. `stamp` prints a time in decimal.
pub record World : Type 0 where
  pub user_id : Text
  pub device_id : Text
  pub has_sync : Bool
  pub initialized : Bool
  pub outbound_session : Text → Text
  pub encrypt_message : Text → Text → Text → Text
  pub room_key_shared : Text → Bool
  pub share_succeeds : Text → Bool
  pub reply : Call → Reply
  pub now : ℤ
  pub reply_time : ℤ
  pub stamp : ℤ → Text
  pub alive_in_job : Bool
  pub alive_in_reply : Bool

pub data Action : Type 0 where
  append_back : DisplayedEvent → Action
  replace_echo : Text → DisplayedEvent → Action
  call : Call → Action

-- The job encrypts only with the view alive and the decryptor initialised.
unfoldable pub ready : World → Bool
ready w = w.alive_in_job && w.has_sync && w.initialized

-- The room counts as encrypted if the view or the room list says so. `listed` is the room list's
-- flag, `none` where the room has no row.
unfoldable pub is_encrypted : Chat → Option Bool → Bool
is_encrypted c none = c.encrypted
is_encrypted c (some flag) = if c.encrypted then true else flag

-- `blank` is a default-constructed `DisplayedEvent`.
module _ (blank : DisplayedEvent) (w : World) where
  open w use {
    user_id, device_id, outbound_session, encrypt_message, room_key_shared, share_succeeds, reply,
    now, reply_time, stamp,
  }

  -- A callback does nothing once the view is gone.
  queued : List Action → List Action
  queued actions = if w.alive_in_reply then actions else []

  pub temp_id : Text
  temp_id = text "pending-" ++ stamp now

  failed : Text → Action
  failed message =
      replace_echo temp_id (record blank { msgtype = text "m.notice"; body = text "❌ " ++ message })

  -- The row that is shown at once.
  pub echo : Chat → Text → DisplayedEvent
  echo c body = record blank {
    event_id = temp_id;
    sender_id = user_id;
    sender_name = text "you";
    event_type = text "m.room.message";
    msgtype = text "m.text";
    body = body;
    origin_server_ts = now;
    is_thread_reply = if is_empty c.thread_root then blank.is_thread_reply else true;
    thread_root_id = if is_empty c.thread_root then blank.thread_root_id else c.thread_root;
  }

  -- The row for the event that the server has accepted.
  sent : Text → Text → DisplayedEvent
  sent event_id body = record blank {
    event_id = event_id;
    sender_id = user_id;
    sender_name = text "you";
    event_type = text "m.room.message";
    msgtype = text "m.text";
    body = body;
    origin_server_ts = reply_time;
  }

  thread_job : Chat → Text → List Action
  unfolding queued failed sent
  thread_job c body =
      let request = send_thread_reply c.room_id body c.thread_root in
      let r = reply request in
      call request
      ∷ queued (
          (if r.ok
            then replace_echo temp_id (record (sent r.event_id body) {
              is_thread_reply = true;
              thread_root_id = c.thread_root;
            })
            else failed r.message)
          ∷ [])

  relates_to : Text → Text
  relates_to root =
      if is_empty root
      then []
      else text ",\"m.relates_to\":{\"rel_type\":\"m.thread\",\"event_id\":\"" ++ root ++ text "\"}"

  -- The plaintext event that is encrypted.
  pub inner_event : Chat → Text → Text
  unfolding relates_to
  inner_event c body =
      text "{\"type\":\"m.room.message\",\"content\":{\"msgtype\":\"m.text\",\"body\":\""
      ++ escape body
      ++ text "\""
      ++ relates_to c.thread_root
      ++ text "},\"room_id\":\""
      ++ c.room_id
      ++ text "\"}"

  key_row : Text → DisplayedEvent
  key_row session = record blank {
    event_type = text "progressive.system";
    event_id = text "rks" ++ take 8 session ++ text "_" ++ stamp reply_time;
    origin_server_ts = reply_time;
    sender_name = text "system";
    body = text "You shared the room key (session " ++ take 6 session ++ text "…)";
  }

  -- From the ciphertext on: the room key first, then the event.
  deliver : Chat → Text → Text → Text → List Action
  unfolding queued failed sent key_row
  deliver c body session ciphertext =
      let request = send_encrypted_event c.room_id ciphertext in
      let r = reply request in
      let shared_before = room_key_shared c.room_id in
      let shared_fresh = not shared_before && share_succeeds c.room_id in
      (if shared_before then [] else call (share_room_key c.room_id) ∷ [])
      ++ call request
        ∷ queued (
            if r.ok
            then (if shared_fresh then append_back (key_row session) ∷ [] else [])
              ++ replace_echo temp_id (sent r.event_id body) ∷ []
            else failed r.message ∷ [])

  encrypted_job : Chat → Text → List Action
  unfolding queued failed deliver
  encrypted_job c body =
      let session = outbound_session c.room_id in
      let ciphertext = encrypt_message c.room_id device_id (inner_event c body) in
      if is_empty session
      then queued (failed (text "Failed to encrypt") ∷ [])
      else if is_empty ciphertext
      then queued (failed (text "Encryption failed") ∷ [])
      else deliver c body session ciphertext

  plain_job : Chat → Text → List Action
  unfolding queued failed sent
  plain_job c body =
      let request = send_message c.room_id body in
      let r = reply request in
      call request
      ∷ queued
          ((if r.ok then replace_echo temp_id (sent r.event_id body) else failed r.message) ∷ [])

  send_job : Bool → Chat → Text → List Action
  unfolding thread_job encrypted_job plain_job ready
  send_job encrypted c body =
      if not (is_empty c.thread_root) && not encrypted
      then thread_job c body
      else if encrypted && ready w
      then encrypted_job c body
      else plain_job c body

  -- `doSend`. `client` says whether a client is set.
  pub do_send : Bool → Option Bool → Chat → Text → List Action
  unfolding send_job is_encrypted
  do_send client listed c body =
      if is_empty c.room_id || not client
      then []
      else append_back (echo c body) ∷ send_job (is_encrypted c listed) c body

  -- `/me`: the plaintext event, with the body as it was typed.
  unfoldable pub emote_event : Chat → Text → Text
  emote_event c body =
      text "{\"type\":\"m.room.message\",\"content\":{\"msgtype\":\"m.emote\",\"body\":\""
      ++ body
      ++ text "\"},\"room_id\":\""
      ++ c.room_id
      ++ text "\"}"

  emote_reply : Reply → List Action
  unfolding queued failed
  emote_reply r = if not r.ok && w.alive_in_job then queued (failed r.message ∷ []) else []

  emote_job : Chat → Text → List Action
  unfolding emote_reply ready
  emote_job c body =
      let session = outbound_session c.room_id in
      let ciphertext = encrypt_message c.room_id device_id (emote_event c body) in
      let plain = send_typed_message c.room_id body (text "m.emote") in
      let secret = send_encrypted_event c.room_id ciphertext in
      if c.encrypted && ready w
      then (if is_empty session || is_empty ciphertext
          then []
          else (if room_key_shared c.room_id then [] else call (share_room_key c.room_id) ∷ [])
            ++ call secret ∷ emote_reply (reply secret))
      else call plain ∷ emote_reply (reply plain)

  pub emote : Chat → Text → List Action
  unfolding emote_job
  emote c body =
      append_back (record (echo (clear c) body) { msgtype = text "m.emote" }) ∷ emote_job c body

  -- The slot for a slash command: `/me` in an open room, or `none` where the command is passed on.
  pub on_slash : Chat → Text → Text → Option (List Action)
  unfolding emote
  on_slash c cmd args =
      if cmd == text "me" && not (is_empty c.room_id) then some (emote c args) else none
