-- ===== src/Switcher.antt =====
-- src/ui/dialogs/room_switcher_dialog.cpp: the dialog that filters the rooms by what is typed and is
-- operated by the arrow keys. Lower case, trimming and substring tests are Qt's: parameters.
pub mod Selection
use progressive_desktop.Base.{
  ℕ, zero, suc, ◌<◌, ◌≡◌, Bool, true, false, Option, none, some, List, [], ◌∷◌, Text, is_empty, not,
  ◌&&◌, ◌||◌, if◌then◌else◌, length, ltb, keep, map, get_elem?,
}

pub record Room : Type 0 where
  pub name : Text
  pub room_id : Text
  pub is_invite : Bool

-- The list shows rooms; `current_row` is `none` for Qt's row -1. `selected` is what the dialog emitted.
pub record Dialog : Type 0 where
  pub items : List Room
  pub current_row : Option ℕ
  pub selected : List Text
  pub is_open : Bool

pub data Key : Type 0 where
  up down return escape other : Key

module _ (lower : Text → Text) (trimmed : Text → Text) (includes : Text → Text → Bool) where
  unfoldable pub is_shown : Text → Room → Bool
  is_shown typed r =
      let low = lower (trimmed typed) in
      not r.is_invite
      && (is_empty low || includes (lower r.name) low || includes (lower r.room_id) low)

  unfoldable pub filter_rooms : List Room → Text → Dialog → Dialog
  unfolding is_shown
  filter_rooms rooms typed d =
      let shown = keep (is_shown typed) rooms in
      record d { items = shown; current_row = if ltb 0 (length shown) then some 0 else none }

abbrev pub row_up : Option ℕ → Option ℕ
row_up none = none
row_up (some zero) = some zero
row_up (some (suc i)) = some i

unfoldable pub row_down : ℕ → Option ℕ → Option ℕ
row_down count none = if ltb 0 count then some 0 else none
row_down count (some i) = if ltb (suc i) count then some (suc i) else some i

abbrev pub current_item : Dialog → Option Room
current_item d = elim d.current_row [ none ↦ none | some i ↦ get_elem? d.items i ]

-- A row that is activated: the room is emitted and the dialog closes.
unfoldable pub activate : Option Room → Dialog → Dialog
activate none d = d
activate (some r) d = record d { selected = r.room_id ∷ d.selected; is_open = false }

-- The keys that the dialog takes from the text field; `false` says that the field gets the key.
unfoldable pub key_press : Key → Dialog → Dialog × Bool
unfolding row_down activate
key_press up d = (record d { current_row = row_up d.current_row }, true)
key_press down d = (record d { current_row = row_down (length d.items) d.current_row }, true)
key_press return d = (activate (current_item d) d, true)
key_press escape d = (record d { is_open = false }, true)
key_press other d = (d, false)
