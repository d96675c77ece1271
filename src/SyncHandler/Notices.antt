-- ===== src/SyncHandler/Notices.antt =====
-- The notification of a sync and the flag of the open room in src/ui/handlers/sync_response_handler.cpp.
use progressive_desktop.Base.{
  ℕ, ◌≡◌, refl, ◌≢◌, ◌∙◌, Bool, true, false, Option, none, some, List, [], ◌∷◌, arith, Text, ◌==◌,
  ==_iff, not, ◌&&◌, if◌then◌else◌, keep,
}
use progressive_desktop.Feed.{Engine}
use progressive_desktop.Rooms.{
  RoomData, RoomSyncUpdate, Store, preserve, keep_name, keep_avatar, keep_encryption, remove_rooms,
}
use progressive_desktop.RoomMenu.{RoomModel}
use progressive_desktop.RoomHandler.{View, update_encryption_flag}
use progressive_desktop.SyncHandler.{
  Late, Decrypted, is_noisy, notice, is_in, preserved_rooms, close_removed, notify_rooms,
  sync_applied,
}

abbrev pub first_notice : List RoomData → Option (Text × Text)
first_notice [] = none
first_notice (rd ∷ rds) = some (notice rd)

preserve_keeps :
    (old : Option RoomData) (rd : RoomData)
    → ((preserve old rd).room_id ≡ rd.room_id) × (is_noisy (preserve old rd) ≡ is_noisy rd)
unfolding preserve keep_name keep_avatar keep_encryption
preserve_keeps none rd = (refl, refl)
preserve_keeps (some old) rd = ground arith

module _ {S : Type 0} (m : RoomModel S) (decimal : ℕ → Text) where
  abbrev pub is_news : Text → RoomData → Bool
  is_news current rd = is_noisy rd && not (rd.room_id == current)

  update_keeps :
      (b : Bool) (flag : Bool) (v : View S)
      → (if b then update_encryption_flag m decimal flag v else v).current_room ≡ v.current_room
  unfolding update_encryption_flag
  update_keeps true flag v = refl
  update_keeps false flag v = refl

  -- A sync notifies at most once: of the first of its rooms that has something unread and is not the one
  -- that is open, and of none where there is no such room.
  pub notify_rooms-first :
      (opened : Text) (rds : List RoomData) (v : View S)
      → (notify_rooms m decimal opened rds v).1 ≡ first_notice (keep (is_news v.current_room) rds)
  unfolding notify_rooms
  notify_rooms-first opened [] v = refl
  notify_rooms-first opened (rd ∷ rds) v =
      let flagged =
        if rd.room_id == opened then update_encryption_flag m decimal rd.is_encrypted v else v in
      ground (
        arith,
        update_keeps (rd.room_id == opened) rd.is_encrypted v,
        notify_rooms-first opened rds flagged,
        notify_rooms-first opened rds v,
      )

  eq_ne : (a b : Text) → a ≢ b → (a == b) ≡ false
  eq_ne a b h = ground (arith, ==_iff a b)

  notify_rooms-stops :
      (opened : Text) (rd : RoomData) (rds : List RoomData) (v : View S)
      → is_noisy rd ≡ true
      → (rd.room_id == opened) ≡ false
      → (rd.room_id == v.current_room) ≡ false
      → (notify_rooms m decimal opened (rd ∷ rds) v).0.chat_encrypted ≡ v.chat_encrypted
  unfolding notify_rooms
  notify_rooms-stops opened rd rds v n o c = rw (o, n, c) refl

  module _ (g : Engine) (has_row : Text → Bool) (late : Late) where
    -- The notification ends the loop that also sets the flag of the open room: where the first room of the
    -- update is another one with something unread, the view keeps its old flag, whatever the update
    -- says of the open room behind it, even that it is encrypted from now on.
    pub sync_applied_skips_flag :
        (u : RoomSyncUpdate) (names : List (Text × Text)) (decrypted : List Decrypted)
        (joined : S → ℕ) (rows : ℕ) (st : Store) (v : View S) (rd : RoomData) (rds : List RoomData)
        → u.rooms_to_upsert ≡ rd ∷ rds
        → is_noisy rd ≡ true
        → rd.room_id ≢ v.current_room
        → is_in v.current_room u.rooms_to_remove ≡ false
        → (sync_applied m decimal g has_row late u names decrypted v.current_room joined rows st
            v).view.chat_encrypted
          ≡ v.chat_encrypted
    unfolding sync_applied preserved_rooms close_removed
    sync_applied_skips_flag u names decrypted joined rows st v rd rds e n r o =
        let known = m.find rd.room_id (remove_rooms m.list u.rooms_to_remove v.rooms) in
        let (same, loud) = preserve_keeps known rd in
        let other : ((preserve known rd).room_id == v.current_room) ≡ false =
          rw same (eq_ne rd.room_id v.current_room r) in
        let behind =
          preserved_rooms m decimal rds
            (m.upsert_room (preserve known rd) (remove_rooms m.list u.rooms_to_remove v.rooms)) in
        rw (e, o)
          (notify_rooms-stops v.current_room (preserve known rd) behind _ (loud ∙ n) other other)
