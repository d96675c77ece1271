-- ===== src/Chat/Echo.antt =====
-- What becomes of the row that src/ui/chat/chat_view.cpp shows before the server has answered.
use progressive_desktop.Base.{
  ◌≡◌, refl, ◌≢◌, Bool, true, false, Option, none, some, List, [], ◌∷◌, ◌++◌, ◌≤◌, All, arith, Text,
  text, count_if, get_elem?,
}
use mathlib.Core.List.{append_assoc}
use progressive_desktop.Json.{quote, backslash, read_string}
use progressive_desktop.Json.Escape.{read_string-unescaped}
use progressive_desktop.Engine.{DisplayedEvent}
use progressive_desktop.Chat.{
  Chat, World, Call, send_typed_message, send_encrypted_event, Action, append_back, replace_echo,
  call, ready, is_encrypted, echo, inner_event, temp_id, do_send, emote, emote_event, sent,
}

abbrev pub is_replacement : Action → Bool
is_replacement (append_back e) = false
is_replacement (replace_echo i e) = true
is_replacement (call c) = false

-- The last replacement of the row with this id, if there is one.
abbrev pub last_replacement : List Action → Option (Text × DisplayedEvent)
last_replacement [] = none
last_replacement (append_back e ∷ actions) = last_replacement actions
last_replacement (replace_echo i e ∷ []) = some (i, e)
last_replacement (replace_echo i e ∷ a ∷ actions) = last_replacement (a ∷ actions)
last_replacement (call c ∷ actions) = last_replacement actions

-- The ids of the rows that are replaced, in order.
abbrev pub replaced_ids : List Action → List Text
replaced_ids [] = []
replaced_ids (append_back e ∷ actions) = replaced_ids actions
replaced_ids (replace_echo i e ∷ actions) = i ∷ replaced_ids actions
replaced_ids (call c ∷ actions) = replaced_ids actions

module _ (blank : DisplayedEvent) (w : World) where
  -- While the view lives, every message that is sent shows its row at once and, whatever path the
  -- job takes and however the server answers, replaces that row exactly once and no other row.
  pub do_send_answers :
      (listed : Option Bool) (c : Chat) (body : Text)
      → c.room_id ≢ []
      → w.alive_in_reply ≡ true
      → (get_elem? (do_send blank w true listed c body) 0
          ≡ some (append_back (echo blank w c body)))
        × (replaced_ids (do_send blank w true listed c body) ≡ temp_id blank w ∷ [])
  unfolding do_send
  do_send_answers listed c body room alive = ground arith

  -- An encrypted message that is accepted is shown as a plain row: the row that replaces the echo
  -- of a thread reply no longer says that it is one.
  do_send_loses_thread :
      (listed : Option Bool) (c : Chat) (body : Text)
      → c.room_id ≢ []
      → w.alive_in_reply ≡ true
      → is_encrypted c listed ≡ true
      → ready w ≡ true
      → w.outbound_session c.room_id ≢ []
      → w.encrypt_message c.room_id w.device_id (inner_event blank w c body) ≢ []
      → (w.reply (
          send_encrypted_event c.room_id
            (w.encrypt_message c.room_id w.device_id (inner_event blank w c body)))).ok
        ≡ true
      → (e : DisplayedEvent) × (last_replacement (do_send blank w true listed c body)
          ≡ some (temp_id blank w, e))
        × (e.is_thread_reply ≡ blank.is_thread_reply)
        × (e.thread_root_id ≡ blank.thread_root_id)
  unfolding do_send sent
  do_send_loses_thread listed c body room alive enc r s k ok =
      let request =
        send_encrypted_event c.room_id
          (w.encrypt_message c.room_id w.device_id (inner_event blank w c body)) in
      (sent blank w (w.reply request).event_id body, ground arith, refl, refl)

  -- The row of an emote is replaced only by an error: where the calls succeed, or the message
  -- cannot be encrypted, it stays as it is.
  pub emote_pending :
      (c : Chat) (body : Text)
      → ((q : Call) → (w.reply q).ok ≡ true)
      → count_if is_replacement (emote blank w c body) ≡ 0
  unfolding emote
  emote_pending c body ok =
      let plain = ok (send_typed_message c.room_id body (text "m.emote")) in
      let secret = ok (
        send_encrypted_event c.room_id
          (w.encrypt_message c.room_id w.device_id (emote_event blank w c body))) in
      ground arith

  -- The event of `/me` puts the body into its JSON as it was typed: a body with a quote is cut there,
  -- when no backslash or control character stands before. What the server reads as the body ends at
  -- the quote, and the rest of what was typed is read as JSON.
  emote_event_cut :
      (c : Chat) (before after : Text)
      → All (λ x. (32 ≤ x) × (x ≢ quote) × (x ≢ backslash)) before
      → (raw rest : Text) × (emote_event blank w c (before ++ quote ∷ after)
          ≡ text "{\"type\":\"m.room.message\",\"content\":{\"msgtype\":\"m.emote\",\"body\":\""
            ++ raw)
        × (read_string raw ≡ some (before, after ++ rest))
  unfolding emote_event text
  emote_event_cut c before after h =
      let tail = text "},\"room_id\":\"" ++ c.room_id ++ text "\"}" in
      (
        before ++ quote ∷ (after ++ quote ∷ tail),
        quote ∷ tail,
        simp append_assoc refl,
        read_string-unescaped before after tail h,
      )
