-- ===== src/RoomRows.antt =====
-- The rows of the list of rooms: what src/ui/room_list_delegate.cpp writes and where it puts the buttons of an invitation, and
-- the counts above the list in src/ui/room_list_model.cpp. Positions are distances from the upper left corner of
-- the row, which is at least as wide as the buttons.
pub mod Buttons
use progressive_desktop.Base.{
  ℕ, suc, ◌+◌, ◌-◌, ◌/◌, Bool, true, false, Option, none, some, List, [], ◌∷◌, ◌++◌, Text, text,
  is_empty, not, ◌&&◌, if◌then◌else◌, leb, ltb, eqb, length,
}
use progressive_desktop.Rooms.{RoomData}
use progressive_desktop.Names.{inviter_name, typing_name}

abbrev pub invite_btn_size : ℕ
invite_btn_size = 28

abbrev pub invite_accept_x : ℕ
invite_accept_x = 62

abbrev pub invite_reject_x : ℕ
invite_reject_x = 30

abbrev pub row_h : ℕ
row_h = 56

abbrev pub unread_w : ℕ
unread_w = 24

abbrev pub unread_right : ℕ
unread_right = 28

abbrev pub unread_top : ℕ
unread_top = 12

pub record Rect : Type 0 where
  pub x : ℕ
  pub y : ℕ
  pub w : ℕ
  pub h : ℕ

unfoldable pub contains : Rect → ℕ → ℕ → Bool
contains r x y = leb r.x x && ltb x (r.x + r.w) && leb r.y y && ltb y (r.y + r.h)

-- In a row of a width and a height; its right edge is one before its width.
unfoldable pub accept_rect : ℕ → ℕ → Rect
accept_rect width height = record {
  x = width - 1 - invite_accept_x;
  y = (height - invite_btn_size) / 2;
  w = invite_btn_size;
  h = invite_btn_size;
}

unfoldable pub reject_rect : ℕ → ℕ → Rect
reject_rect width height = record {
  x = width - 1 - invite_reject_x;
  y = (height - invite_btn_size) / 2;
  w = invite_btn_size;
  h = invite_btn_size;
}

-- The number of unread messages.
unfoldable pub badge_rect : ℕ → Rect
badge_rect width = record {
  x = width - 1 - unread_right;
  y = unread_top;
  w = unread_w;
  h = unread_w;
}

pub data Signal : Type 0 where
  invite_accepted invite_rejected : Text → Signal

-- `editorEvent` for the release of a mouse button: whether it was handled, and the signal.
unfoldable pub editor_event : RoomData → ℕ → ℕ → ℕ → ℕ → Bool × List Signal
unfolding contains accept_rect reject_rect
editor_event r width height x y =
    if not r.is_invite
    then (false, [])
    else if contains (accept_rect width height) x y
    then (true, invite_accepted r.room_id ∷ [])
    else if contains (reject_rect width height) x y
    then (true, invite_rejected r.room_id ∷ [])
    else (false, [])

-- The first line of a row.
unfoldable pub display_name : RoomData → Text
display_name r =
    let name = if r.is_invite then text "✉ " ++ r.name else r.name in
    if r.is_encrypted then text "🔒 " ++ name else name

-- The second line: who invites, who types or the last message.
unfoldable pub second_line : (ℕ → Text) → Text → List Text → RoomData → Text
second_line decimal inviter typing r =
    let typed : Text = elim typing [
      | [] ↦ r.last_message
      | u ∷ us ↦
          if is_empty us
          then typing_name u ++ text " is typing..."
          else typing_name u ++ text " and " ++ decimal (length us) ++ text " others are typing..."
    ] in
    if r.is_invite then inviter_name inviter ++ text " invited you" else typed

-- The header of the list and that of the invitations, which is hidden where there are none.
unfoldable pub count_rooms : List RoomData → ℕ × ℕ
count_rooms [] = (0, 0)
count_rooms (r ∷ rs) =
    let (invites, joined) = count_rooms rs in
    if r.is_invite then (suc invites, joined) else (invites, suc joined)

unfoldable pub update_header : (ℕ → Text) → List RoomData → Text × Option Text
unfolding count_rooms
update_header decimal rooms =
    let (invites, joined) = count_rooms rooms in
    (
      text " Chats (" ++ decimal joined ++ text ") ",
      (if ltb 0 invites
          then some (text "  Invitations (" ++ decimal invites ++ text ") ")
          else none),
    )
