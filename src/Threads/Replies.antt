-- ===== src/Threads/Replies.antt =====
-- How a reply is sent into a thread: src/ui/handlers/thread_handler.cpp.
use progressive_desktop.Base.{
  ◌≡◌, Bool, true, false, arith, Text, text, ◌==◌, ◌&&◌, ◌||◌, if◌then◌else◌, count_if,
}
use progressive_desktop.Threads.{
  Action, World, queued, plain_reply, encrypted_reply, send_thread_reply,
}

-- A row that is shown is a row of the system or a reply in the thread with the root.
abbrev pub IsTagged : Text → Action → Type 0
IsTagged root (Action.show_row d) =
    (d.event_type == text "progressive.system" || d.is_thread_reply && d.thread_root_id == root)
    ≡ true
IsTagged root _ = Unit

abbrev pub is_plain : Action → Bool
is_plain (Action.send_plain body root) = true
is_plain _ = false

module _ (w : World) where
  -- The body goes to the server in plain text exactly where the room is not encrypted or the decryptor
  -- is not ready, and then once: in an encrypted room too.
  pub send_thread_reply_plain :
      (encrypted : Bool) (room root reply_to body : Text)
      → count_if is_plain (send_thread_reply w encrypted room root reply_to body)
        ≡ (if encrypted && w.decryptor_ready then 0 else 1)
  unfolding send_thread_reply plain_reply encrypted_reply queued
  send_thread_reply_plain encrypted room root reply_to body = ground arith
