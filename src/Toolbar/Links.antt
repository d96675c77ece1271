-- ===== src/Toolbar/Links.antt =====
-- What src/ui/handlers/toolbar_handler.cpp makes of a link that is pasted, onJoinRoom, where the link is the one
-- that src/ui/timeline/timeline_handlers.cpp copies, handleCopyLink.
use progressive_desktop.Base.{
  ◌≡◌, refl, ap, ◌≢◌, Bool, true, false, if◌then◌else◌, ◌&&◌, none, some, List, [], ◌∷◌, ◌++◌,
  arith, Text, text, length, length-append,
}
use progressive_desktop.History.{find}
use progressive_desktop.Actions
use progressive_desktop.Actions.{clipboard, handle_copy_link}
use progressive_desktop.Toolbar
use progressive_desktop.Toolbar.{
  Call, join_room, Action, call, behind_mark, join_target, on_join_room,
}

-- The first text that is put on the clipboard.
abbrev pub copied : List Actions.Action → Text
copied [] = []
copied (clipboard t ∷ as') = t
copied (x ∷ as') = copied as'

abbrev pub calls : List Action → List Call
calls [] = []
calls (call c ∷ as') = c ∷ calls as'
calls (x ∷ as') = calls as'

abbrev pub link : Text → Text → Text
link room event_id = text "https://matrix.to/#/" ++ room ++ text "/" ++ event_id

length-longer : (room event_id : Text) → room ++ text "/" ++ event_id ≢ room
unfolding text
length-longer room event_id e = absurd (
    omega (
      arith,
      ap length e,
      length-append (room ++ text "/") event_id,
      length-append room (text "/"),
    ))

module _ (w : Actions.World) (t : Toolbar.World) where
  behind_mark-none : (mark input : Text) → find mark input ≡ none → behind_mark t mark input ≡ input
  unfolding behind_mark
  behind_mark-none mark input e = rw (e, behind_mark) refl

  behind_mark-id :
      (rest : Text)
      → behind_mark t (text "#/!") (text "https://matrix.to/#/" ++ b'!' ∷ rest) ≡ b'!' ∷ rest
  unfolding behind_mark find text
  behind_mark-id rest = refl

  join_target-link :
      (id event_id : Text)
      → let room : Text = b'!' ∷ id in
        find (text "#/#") (link room event_id) ≡ none
        → join_target t (link room event_id) ≡ t.trimmed (room ++ text "/" ++ event_id)
  unfolding join_target text
  join_target-link id event_id f =
      rw (join_target, behind_mark-none (text "#/#") (link (b'!' ∷ id) event_id) f)
        (ap t.trimmed (behind_mark-id (id ++ text "/" ++ event_id)))

  -- The permalink of a message, copied from its menu and pasted into the dialog that joins a room, asks the
  -- server to join the room's id with a slash and the id of the event behind it, which is another id:
  -- only what stands before the id is cut off. The link has no "#/#", and is not changed by trimming.
  pub pasted_misses :
      (id event_id : Text)
      → t.logged_in ≡ true
      → let room : Text = b'!' ∷ id in
        find (text "#/#") (link room event_id) ≡ none
        → t.trimmed (link room event_id) ≡ link room event_id
        → t.trimmed (room ++ text "/" ++ event_id) ≡ room ++ text "/" ++ event_id
        → (calls (on_join_room t (some (copied (handle_copy_link w room event_id))))
            ≡ join_room (room ++ text "/" ++ event_id) ∷ [])
          × (room ++ text "/" ++ event_id ≢ room)
  unfolding on_join_room handle_copy_link text
  pasted_misses id event_id l f same target = (
    rw (l, same, join_target-link id event_id f, target)
        (ap (join_room (b'!' ∷ id ++ text "/" ++ event_id) ∷◌)
          (go (t.alive && (t.reply (join_room (b'!' ∷ id ++ text "/" ++ event_id))).ok))),
    length-longer (b'!' ∷ id) event_id,
  )
    where
      go :
          (b : Bool)
          → calls (if b then Toolbar.inform (text "Successfully joined room.") ∷ [] else []) ≡ []
      go true = refl
      go false = refl
