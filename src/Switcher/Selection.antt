-- ===== src/Switcher/Selection.antt =====
-- What the room switcher of src/ui/dialogs/room_switcher_dialog.cpp can select.
use progressive_desktop.Base.{
  ℕ, zero, suc, ◌<◌, ◌≡◌, Bool, false, Option, none, some, List, [], ◌∷◌, arith, Text,
  if◌then◌else◌, if_rule, length, ltb, keep, get_elem?, All,
}
use progressive_desktop.Switcher.{
  Room, Dialog, Key, is_shown, filter_rooms, row_up, row_down, current_item, activate, key_press,
}

-- A row is current if there are rows at all, and it is one of them.
abbrev pub IsSelected : ℕ → Option ℕ → Type 0
IsSelected count none = count ≡ 0
IsSelected count (some i) = i < count

pub data Event : Type 0 where
  typed : Text → Event
  pressed : Key → Event
  activated : ℕ → Event

up-IsSelected : (count : ℕ) (o : Option ℕ) → IsSelected count o → IsSelected count (row_up o)
up-IsSelected count none h = h
up-IsSelected count (some zero) h = h
up-IsSelected count (some (suc i)) h = omega arith

down-IsSelected :
    (count : ℕ) (o : Option ℕ) → IsSelected count o → IsSelected count (row_down count o)
unfolding row_down
down-IsSelected count none h = ground arith
down-IsSelected count (some i) h = ground arith

first-IsSelected : (n : ℕ) → IsSelected n (if ltb 0 n then some 0 else none)
first-IsSelected n =
    if_rule (IsSelected n) (ltb 0 n) (λ s. ground (arith, s)) (λ s. ground (arith, s))

-- The property holds of the room, if there is one.
abbrev Holds : (Room → Type 0) → Option Room → Type 0
Holds P none = Unit
Holds P (some r) = P r

get_elem?-All : (P : Room → Type 0) (rs : List Room) (i : ℕ) → All P rs → Holds P (get_elem? rs i)
get_elem?-All P [] i h = tt
get_elem?-All P (x ∷ rs) zero (p, ps) = p
get_elem?-All P (x ∷ rs) (suc i) (p, ps) = get_elem?-All P rs i ps

module _ (lower : Text → Text) (trimmed : Text → Text) (includes : Text → Text → Bool)
    (rooms : List Room) where
  unfoldable pub after : Event → Dialog → Dialog
  after (typed t) d = filter_rooms lower trimmed includes rooms t d
  after (pressed k) d = (key_press k d).0
  after (activated i) d = activate (get_elem? d.items i) d

  unfoldable pub run : List Event → Dialog → Dialog
  unfolding after
  run [] d = d
  run (e ∷ es) d = run es (after e d)

  -- A row is current whenever there is one, and everything shown or selected is so.
  abbrev pub IsSound : (Text → Type 0) → Dialog → Type 0
  IsSound P d =
      IsSelected (length d.items) d.current_row
      × All (λ (r : Room). P r.room_id) d.items
      × All P d.selected

  keep_shown :
      (P : Text → Type 0) (t : Text) (rs : List Room)
      → All (λ (r : Room). r.is_invite ≡ false → P r.room_id) rs
      → All (λ (r : Room). P r.room_id) (keep (is_shown lower trimmed includes t) rs)
  unfolding is_shown
  keep_shown P t [] h = tt
  keep_shown P t (r ∷ rs) (h, hs) =
      if_rule (All (λ (r : Room). P r.room_id)) (is_shown lower trimmed includes t r)
        (λ s. (h (ground (arith, s)), keep_shown P t rs hs)) (λ s. keep_shown P t rs hs)

  activate-IsSound :
      (P : Text → Type 0) (o : Option Room) (d : Dialog)
      → Holds (λ r. P r.room_id) o
      → IsSound P d
      → IsSound P (activate o d)
  unfolding activate
  activate-IsSound P none d h s = s
  activate-IsSound P (some r) d h (c, i, s) = (c, i, (h, s))

  current-Holds :
      (P : Text → Type 0) (d : Dialog) → IsSound P d → Holds (λ r. P r.room_id) (current_item d)
  current-Holds P d (c, i, s) =
      elim d.current_row
        as (λ o. Holds (λ r. P r.room_id) (elim o [ none ↦ none | some j ↦ get_elem? d.items j ])) [
          | none ↦ tt
          | some j ↦ get_elem?-All (λ r. P r.room_id) d.items j i
        ]

  key_press-IsSound :
      (P : Text → Type 0) (k : Key) (d : Dialog) → IsSound P d → IsSound P (key_press k d).0
  unfolding key_press
  key_press-IsSound P Key.up d (c, i, s) = (up-IsSelected (length d.items) d.current_row c, i, s)
  key_press-IsSound P Key.down d (c, i, s) =
      (down-IsSelected (length d.items) d.current_row c, i, s)
  key_press-IsSound P Key.return d h = activate-IsSound P (current_item d) d (current-Holds P d h) h
  key_press-IsSound P Key.escape d h = h
  key_press-IsSound P Key.other d h = h

  filter-IsSound :
      (P : Text → Type 0) (t : Text) (d : Dialog)
      → All (λ (r : Room). r.is_invite ≡ false → P r.room_id) rooms
      → All P d.selected
      → IsSound P (filter_rooms lower trimmed includes rooms t d)
  unfolding filter_rooms
  filter-IsSound P t d h s = (
    first-IsSelected (length (keep (is_shown lower trimmed includes t) rooms)),
    keep_shown P t rooms h,
    s,
  )

  -- Whatever is typed, pressed and clicked, in any order, from a dialog that was just filtered: a row is
  -- current whenever the list has one, and every room that is shown or was selected is a room of the
  -- model that is no invitation. The predicate is any that holds of the ids of those rooms.
  pub run-IsSound :
      (P : Text → Type 0) (es : List Event) (d : Dialog)
      → All (λ (r : Room). r.is_invite ≡ false → P r.room_id) rooms
      → IsSound P d
      → IsSound P (run es d)
  unfolding run
  run-IsSound P [] d h s = s
  run-IsSound P (typed t ∷ es) d h s =
      run-IsSound P es (after (typed t) d) h (filter-IsSound P t d h s.2)
  run-IsSound P (pressed k ∷ es) d h s =
      run-IsSound P es (after (pressed k) d) h (key_press-IsSound P k d s)
  run-IsSound P (activated i ∷ es) d h s = run-IsSound P es (after (activated i) d) h (
      activate-IsSound P (get_elem? d.items i) d (get_elem?-All (λ r. P r.room_id) d.items i s.1) s)
