-- ===== src/Chat/Routing.antt =====
-- Which calls of the homeserver doSend of src/ui/chat/chat_view.cpp makes, and with what.
use progressive_desktop.Base.{
  ◌≡◌, ◌≢◌, Bool, true, false, Option, List, [], ◌∷◌, ◌++◌, arith, Text, if◌then◌else◌,
}
use progressive_desktop.Engine.{DisplayedEvent}
use progressive_desktop.Chat.{
  Chat, World, Call, send_message, send_typed_message, send_thread_reply, send_encrypted_event,
  share_room_key, Action, append_back, replace_echo, call, ready, is_encrypted, inner_event,
  do_send,
}

-- The calls among the actions, in order.
abbrev pub calls : List Action → List Call
calls [] = []
calls (append_back e ∷ actions) = calls actions
calls (replace_echo i e ∷ actions) = calls actions
calls (call c ∷ actions) = c ∷ calls actions

-- A call that hands the server a readable body.
abbrev pub is_plain : Call → Bool
is_plain (send_message room body) = true
is_plain (send_typed_message room body kind) = true
is_plain (send_thread_reply room body root) = true
is_plain (send_encrypted_event room enc) = false
is_plain (share_room_key room) = false

module _ (blank : DisplayedEvent) (w : World) where
  -- In an encrypted room with the decryptor ready, a session and a ciphertext, the only calls are
  -- the share of the room key, unless it was shared before, and then the event, which carries the
  -- ciphertext of the message and nothing else.
  do_send_key_first :
      (listed : Option Bool) (c : Chat) (body : Text)
      → c.room_id ≢ []
      → is_encrypted c listed ≡ true
      → ready w ≡ true
      → w.outbound_session c.room_id ≢ []
      → w.encrypt_message c.room_id w.device_id (inner_event blank w c body) ≢ []
      → calls (do_send blank w true listed c body)
        ≡ (if w.room_key_shared c.room_id then [] else share_room_key c.room_id ∷ [])
          ++ send_encrypted_event c.room_id
              (w.encrypt_message c.room_id w.device_id (inner_event blank w c body))
            ∷ []
  unfolding do_send
  do_send_key_first listed c body room enc r s k = ground arith
