-- ===== src/Threads.antt =====
-- src/ui/handlers/thread_handler.cpp: the view of one thread and the replies that are sent into it. The
-- client and the decryptor are parameters, and the parsed answer of the server is an argument.
pub mod View
pub mod Replies
use progressive_desktop.Base.{
  ℕ, suc, Bool, true, false, Option, none, some, List, [], ◌∷◌, ◌++◌, map, Text, text, is_empty,
  ◌==◌, not, ◌&&◌, ◌||◌, if◌then◌else◌, take, keep, length,
}
use progressive_desktop.Base.Int.{ℤ}
use progressive_desktop.Engine.{DisplayedEvent}
use progressive_desktop.Json.{escape}
use progressive_desktop.Names.{parsed_name}

pub record Thread : Type 0 where
  pub current_root : Text
  pub banner_shown : Bool
  pub status : Text
  pub timeline : List DisplayedEvent

-- `getThreadReplies` as it is parsed: an error, no JSON, or the original event, if there is one, and the
-- replies, if there is an array of them.
pub data Answer : Type 0 where
  failed : Text → Answer
  unparsed : Answer
  replies : Option DisplayedEvent → Option (List DisplayedEvent) → Answer

-- `findRow` and `at`: the first row with the id.
abbrev pub find_row : Text → List DisplayedEvent → Option DisplayedEvent
find_row k [] = none
find_row k (d ∷ ds) = if d.event_id == k then some d else find_row k ds

unfoldable pub reply_snapshots : Text → List DisplayedEvent → List DisplayedEvent
reply_snapshots root rows =
    keep (λ (d : DisplayedEvent). d.is_thread_reply && d.thread_root_id == root) rows

-- `msg_type`, `msg_body` and `extract` are the engine's readers of a content.
module _ (msg_type msg_body : Text → Text) (extract : Text → Text → Text) (decimal : ℕ → Text) where
  unfoldable pub read_message : DisplayedEvent → DisplayedEvent
  read_message d =
      let kind = msg_type d.content_json in
      let media = kind == text "m.image" || kind == text "m.video" in
      if d.event_type == text "m.room.message"
      then record d {
        msgtype = kind;
        body = msg_body d.content_json;
        mxc_url = if media then extract d.content_json (text "url") else d.mxc_url;
      }
      else d

  unfoldable pub thread_root : Option DisplayedEvent → DisplayedEvent → DisplayedEvent
  unfolding read_message
  thread_root snapshot original =
      let read = read_message original in
      let root =
        if original.event_type == text "m.room.encrypted"
        then elim snapshot [
          | none ↦ read
          | some s ↦ record read { body = s.body; msgtype = s.msgtype }
        ]
        else read in
      record root { is_thread_root = true }

  unfoldable pub thread_reply : Text → DisplayedEvent → DisplayedEvent
  unfolding read_message
  thread_reply root d = record (read_message d) { is_thread_reply = true; thread_root_id = root }

  -- The row of the root, from the answer or from the timeline before.
  unfoldable pub root_rows : Option DisplayedEvent → Option DisplayedEvent → List DisplayedEvent
  unfolding thread_root
  root_rows snapshot (some original) = thread_root snapshot original ∷ []
  root_rows (some s) none = record s { is_thread_root = true } ∷ []
  root_rows none none = []

  unfoldable pub show_answer :
      Text → Option DisplayedEvent → List DisplayedEvent → Answer → Thread → Thread
  unfolding root_rows thread_reply
  show_answer root snapshot local (failed message) t = record t {
    status = text "Failed to load thread: " ++ message;
  }
  show_answer root snapshot local unparsed t = record t {
    status = text "Failed to parse thread replies.";
  }
  show_answer root snapshot local (replies original none) t = record t {
    status = text "No thread replies found.";
    timeline = t.timeline ++ root_rows snapshot original;
  }
  show_answer root snapshot local (replies original (some chunk)) t = record t {
    status = text "Loaded " ++ decimal (length chunk) ++ text " thread reply(s).";
    timeline = t.timeline ++ root_rows snapshot original ++ map (thread_reply root) chunk ++ local;
  }

  -- `openThreadView`: the snapshots, the cleared timeline, then what the answer brings. `ready` says
  -- that there are a client and a window.
  unfoldable pub open_thread_view : Bool → Text → Text → Answer → Thread → Thread
  unfolding reply_snapshots show_answer
  open_thread_view ready root room answer t =
      if not ready || is_empty room
      then t
      else show_answer root (find_row root t.timeline) (reply_snapshots root t.timeline) answer
          (record {
            current_root = root;
            banner_shown = true;
            status = text "Loading thread...";
            timeline = [];
          })

unfoldable pub close_thread_view : Thread → Thread
close_thread_view t = record t { current_root = []; banner_shown = false; timeline = [] }

pub record Reply : Type 0 where
  pub ok : Bool
  pub event_id : Text
  pub message : Text

-- What a reply asks of the server, shows in the timeline, or tells in the status line.
pub data Action : Type 0 where
  send_plain : Text → Text → Action
  share_room_key : Action
  send_encrypted : Text → Action
  show_row : DisplayedEvent → Action
  set_status : Text → Action

-- What the sending of one reply finds: the decryptor's answers, the server's, and whether the window
-- is still there when they come.
pub record World : Type 0 where
  pub blank : DisplayedEvent
  pub user_id : Text
  pub now : ℤ
  pub stamp : ℤ → Text
  pub decryptor_ready : Bool
  pub session : Text
  pub encrypt : Text → Text
  pub key_shared : Bool
  pub share_succeeds : Bool
  pub reply : Reply
  pub alive : Bool

module _ (w : World) where
  unfoldable pub effective_root : Text → Text → Text
  effective_root root reply_to = if is_empty root then reply_to else root

  unfoldable pub echo : Text → Text → DisplayedEvent
  echo root body = record w.blank {
    event_id = w.reply.event_id;
    sender_id = w.user_id;
    sender_name = parsed_name w.blank.sender_name w.user_id;
    origin_server_ts = w.now;
    event_type = text "m.room.message";
    msgtype = text "m.text";
    body = body;
    is_thread_reply = true;
    thread_root_id = root;
  }

  -- What is queued for the interface does nothing once the window is gone.
  unfoldable pub queued : List Action → List Action
  queued actions = if w.alive then actions else []

  unfoldable pub plain_reply : Text → Text → List Action
  unfolding echo queued
  plain_reply root body =
      send_plain body root ∷ queued (if w.reply.ok then show_row (echo root body) ∷ [] else [])

  unfoldable pub inner_event : Text → Text → Text → Text
  inner_event room root body =
      text "{\"type\":\"m.room.message\",\"content\":{\"msgtype\":\"m.text\",\"body\":\""
      ++ escape body
      ++ text "\""
      ++ text ",\"m.relates_to\":{\"rel_type\":\"m.thread\",\"event_id\":\""
      ++ root
      ++ text "\"}"
      ++ text "},\"room_id\":\""
      ++ room
      ++ text "\"}"

  unfoldable pub key_row : DisplayedEvent
  key_row = record w.blank {
    event_type = text "progressive.system";
    event_id = text "rks" ++ take 8 w.session ++ text "_" ++ w.stamp w.now;
    origin_server_ts = w.now;
    sender_name = text "system";
    body = text "You shared the room key (session " ++ take 6 w.session ++ text "…)";
  }

  unfoldable pub encrypted_reply : Text → Text → Text → List Action
  unfolding echo inner_event key_row queued
  encrypted_reply room root body =
      let cipher = w.encrypt (inner_event room root body) in
      let fresh = not w.key_shared && w.share_succeeds in
      if is_empty w.session
      then queued (set_status (text "�� Failed to encrypt thread reply") ∷ [])
      else if is_empty cipher
      then queued (set_status (text "�� Encryption failed for thread reply") ∷ [])
      else (if w.key_shared then [] else share_room_key ∷ [])
        ++ send_encrypted cipher ∷ []
        ++ queued (
            (if fresh then show_row key_row ∷ [] else [])
            ++ (if w.reply.ok
                then show_row (echo root body) ∷ []
                else set_status (text "�� " ++ w.reply.message) ∷ []))

  -- `sendThreadReply`; `encrypted` is what the list of rooms says, false for a room that it lacks.
  unfoldable pub send_thread_reply : Bool → Text → Text → Text → Text → List Action
  unfolding effective_root plain_reply encrypted_reply
  send_thread_reply encrypted room root reply_to body =
      let at = effective_root root reply_to in
      if encrypted && w.decryptor_ready then encrypted_reply room at body else plain_reply at body

  -- `replyInThread`; `typed` is what the input dialog returns, `trimmed` what is left of it without
  -- blanks.
  unfoldable pub reply_in_thread :
      Bool → Bool → Text → Thread → Text → Option Text → (Text → Text) → List Action
  unfolding send_thread_reply
  reply_in_thread ready encrypted room t event_id none trimmed = []
  reply_in_thread ready encrypted room t event_id (some typed) trimmed =
      if not ready || is_empty room || is_empty (trimmed typed)
      then []
      else send_thread_reply encrypted room t.current_root event_id typed
