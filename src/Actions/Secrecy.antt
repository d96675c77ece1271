-- ===== src/Actions/Secrecy.antt =====
-- What the menu of a message hands to the server, and when the timeline shows its outcome
-- (src/ui/timeline/timeline_handlers.cpp, src/ui/handlers/room_context_menu.cpp).
use progressive_desktop.Base.{◌≡◌, refl, ◌⊎◌, true, false, Option, some, ◌∷◌, ◌++◌, Text, text, All}
use progressive_desktop.Engine.{DisplayedEvent}
use progressive_desktop.Json.{quote, escape, read_string}
use progressive_desktop.Json.Escape.{IsPrintable, read_string-escape}
use progressive_desktop.Actions.{
  send_encrypted_event, send_reaction, edit_message, redact_event, pin_message, unpin_message,
  Action, call, add_reaction, remove_reaction, update_body, mark_deleted, set_pinned, World,
  reaction_inner, edit_inner,
}
use progressive_desktop.Actions.Menu.{is_own}

-- The action hands no readable message to the server.
abbrev pub IsSealed : Action → Type 0
IsSealed (call (send_reaction r e k)) = ⊥
IsSealed (call (edit_message r e b)) = ⊥
IsSealed _ = Unit

module _ (w : World) (room : Text) (event_id : Text) (row : Option DisplayedEvent) where
  -- The server accepted what the action shows.
  abbrev pub IsEarned : Action → Type 0
  IsEarned (update_body e b) =
      (e ≡ event_id)
      × (is_own w room event_id row ≡ true)
      × (((w.reply (edit_message room e b)).ok ≡ true)
          ⊎ ((w.reply (send_encrypted_event room (w.encrypt (edit_inner w room e b)))).ok ≡ true))
  IsEarned (add_reaction e emoji u i) =
      (e ≡ event_id)
      × (u ≡ w.user_id)
      × (((w.reply (send_reaction room e emoji)).ok ≡ true)
          ⊎ ((w.reply (send_encrypted_event room (w.encrypt (reaction_inner w room e emoji)))).ok
              ≡ true))
  IsEarned (remove_reaction e emoji u) =
      (u ≡ w.user_id) × ((i : Text) × ((w.reply (redact_event room i)).ok ≡ true))
  IsEarned (mark_deleted e) = (w.reply (redact_event room e)).ok ≡ true
  IsEarned (set_pinned e true) = (w.reply (pin_message room e)).ok ≡ true
  IsEarned (set_pinned e false) = (w.reply (unpin_message room e)).ok ≡ true
  IsEarned _ = Unit

  -- The event of an edit carries the text that was typed: a reader of JSON gets it back behind `body`, and
  -- again behind the `body` of the new content, where it has no control character but the newline.
  pub edit_inner_reads :
      (body : Text)
      → All IsPrintable body
      → (first second : Text) × (rest : Text) × (edit_inner w room event_id body
          ≡ text "{\"type\":\"m.room.message\",\"content\":{\"msgtype\":\"m.text\",\"body\":\""
            ++ first)
        × (read_string first
            ≡ some (body, text ",\"m.new_content\":{\"msgtype\":\"m.text\",\"body\":\"" ++ second))
        × (read_string second ≡ some (body, rest))
  unfolding edit_inner text
  edit_inner_reads body h =
      let rest =
        text "},\"m.relates_to\":{\"rel_type\":\"m.replace\",\"event_id\":\""
        ++ event_id
        ++ text "\"}},\"room_id\":\""
        ++ room
        ++ text "\"}" in
      let second = escape body ++ quote ∷ rest in
      let behind = text ",\"m.new_content\":{\"msgtype\":\"m.text\",\"body\":\"" ++ second in
      (
        escape body ++ quote ∷ behind,
        second,
        rest,
        refl,
        read_string-escape body behind h,
        read_string-escape body rest h,
      )
