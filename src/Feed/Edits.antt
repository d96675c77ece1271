-- ===== src/Feed/Edits.antt =====
-- Messages and edits of messages in appendTimelineForRoom of src/ui/room/room_store.cpp.
use progressive_desktop.Base.{
  ◌≡◌, refl, ◌∙◌, Bool, false, List, [], ◌∷◌, ◌++◌, map, arith, Text, text, ◌==◌, not, ◌&&◌, Map,
  keep, All, Bool-cases, inl, inr,
}
use mathlib.Core.List.{append_assoc, append-nil}
use progressive_desktop.Engine.{DisplayedEvent}
use progressive_desktop.Feed.{
  FastEvent, Engine, Feed, Call, start, call, row, is_reaction, is_state, feed_event, feed_events,
  with_avatar, edit_or_row, message, own_join, append_timeline_for_room,
}

module _ (g : Engine) (has_row : Text → Bool) (avatars : Map Text) (my_user : Text) where
  -- The row of a message event.
  abbrev pub shown : FastEvent → DisplayedEvent
  shown e = with_avatar g has_row avatars my_user (g.displayed e)

  abbrev pub is_edit : DisplayedEvent → Bool
  is_edit d = d.is_replace && has_row d.replace_target_id

  abbrev pub edit_call : DisplayedEvent → Call
  edit_call d = Call.update_body d.replace_target_id (d.body ++ text " (edited)")

  -- A message that does not turn out to be a reaction when it is decrypted.
  abbrev pub IsMessage : FastEvent → Type 0
  IsMessage e =
      (e.event_type ≡ text "m.room.message")
      × (is_reaction (g.displayed e).event_type (g.displayed e).content_json ≡ false)

  message_branch :
      (e : FastEvent) (f : Feed)
      → e.event_type ≡ text "m.room.message"
      → feed_event g has_row avatars my_user e f ≡ message g has_row avatars my_user e f
  unfolding feed_event own_join is_state text ◌==◌ message
  message_branch e f p = rw p refl

  message_shown :
      (e : FastEvent) (f : Feed)
      → is_reaction (g.displayed e).event_type (g.displayed e).content_json ≡ false
      → message g has_row avatars my_user e f ≡ edit_or_row g has_row avatars my_user (shown e) f
  unfolding message
  message_shown e f q = rw q refl

  -- What the loop has collected after messages only.
  collected :
      (es : List FastEvent) (f : Feed)
      → All IsMessage es
      → feed_events g has_row avatars my_user es f ≡ record {
        batch = f.batch ++ keep (λ d. not (is_edit d)) (map shown es);
        pending = f.pending;
        calls = f.calls ++ map edit_call (keep is_edit (map shown es));
      }
  unfolding feed_events edit_or_row call row
  collected [] f h = rw (append-nil f.batch, append-nil f.calls) refl
  collected (e ∷ es) f ((p, q), hs) =
      let at = message_branch e f p ∙ message_shown e f q in
      elim (Bool-cases (is_edit (shown e))) [
        | inl t ↦
            rw (feed_events, at, edit_or_row, t)
              (collected es (call (edit_call (shown e)) f) hs
                ∙ rw (append_assoc f.calls (edit_call (shown e) ∷ [])) refl)
        | inr t ↦
            rw (feed_events, at, edit_or_row, t)
              (collected es (row (shown e) f) hs ∙ rw (append_assoc f.batch (shown e ∷ [])) refl)
      ]

  -- A sync that brings messages only: those that edit a row which the timeline already has change that
  -- row, in their order, and all others become rows, in their order; nothing else is asked of the
  -- timeline.
  pub messages_split :
      (es : List FastEvent)
      → All IsMessage es
      → append_timeline_for_room g has_row avatars my_user es
        ≡ map edit_call (keep is_edit (map shown es))
          ++ Call.append_back_batch (keep (λ d. not (is_edit d)) (map shown es)) ∷ []
  unfolding append_timeline_for_room start
  messages_split es h = rw (collected es start h) refl

  -- A message and an edit in one sync, where the timeline has no row yet for what is edited, as when
  -- that is the message itself: the edit is not applied, and both become rows.
  edit_beside_its_message :
      (message edit : FastEvent)
      → IsMessage message
      → IsMessage edit
      → has_row (shown edit).replace_target_id ≡ false
      → (shown message).is_replace ≡ false
      → append_timeline_for_room g has_row avatars my_user (message ∷ edit ∷ [])
        ≡ Call.append_back_batch (shown message ∷ shown edit ∷ []) ∷ []
  edit_beside_its_message m e hm he absent plain =
      let known : is_edit (shown e) ≡ false = ground (arith, absent) in
      let new : is_edit (shown m) ≡ false = rw plain refl in
      messages_split (m ∷ e ∷ []) (hm, (he, tt)) ∙ rw (known, new) refl
