-- ===== src/RoomRows/Buttons.antt =====
-- Where a click on an invitation in the list of rooms lands (src/ui/room_list_delegate.cpp).
use progressive_desktop.Base.{ℕ, ◌≤◌, ◌≡◌, true, false, [], ◌∷◌, arith, ◌&&◌}
use progressive_desktop.Rooms.{RoomData}
use progressive_desktop.RoomRows.{
  contains, accept_rect, reject_rect, badge_rect, invite_accepted, invite_rejected, editor_event,
}

-- In a row of at least 64 pixels each button of an invitation answers for itself: no click is on both, and a click
-- on one of them accepts or rejects the invitation of its row.
pub editor_event-contains :
    (r : RoomData) (width height x y : ℕ)
    → r.is_invite ≡ true
    → 64 ≤ width
    → ((contains (accept_rect width height) x y && contains (reject_rect width height) x y) ≡ false)
      × (contains (accept_rect width height) x y ≡ true
          → editor_event r width height x y ≡ (true, invite_accepted r.room_id ∷ []))
      × (contains (reject_rect width height) x y ≡ true
          → editor_event r width height x y ≡ (true, invite_rejected r.room_id ∷ []))
unfolding editor_event contains accept_rect reject_rect
editor_event-contains r width height x y i w =
    (ground (arith, w), (λ h. ground (arith, i, w, h)), (λ h. ground (arith, i, w, h)))

-- The number of unread messages is drawn over the button that rejects: in a row of 56 pixels a click on its lower part, from 14
-- pixels below the upper edge of the row, rejects the invitation.
pub editor_event-badge_rect :
    (r : RoomData) (width x y : ℕ)
    → r.is_invite ≡ true
    → 64 ≤ width
    → contains (badge_rect width) x y ≡ true
    → 14 ≤ y
    → editor_event r width 56 x y ≡ (true, invite_rejected r.room_id ∷ [])
unfolding editor_event contains accept_rect reject_rect badge_rect
editor_event-badge_rect r width x y i w b t = ground (arith, i, w, b, t)
