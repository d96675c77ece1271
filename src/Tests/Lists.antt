-- ===== src/Tests/Lists.antt =====
-- A list of rooms, a store of hidden rooms and a memory of shared keys, with the laws that the examples need.
use progressive_desktop.Base.{
  ◌≡◌, refl, Bool, true, false, Option, none, some, List, [], ◌∷◌, arith, Text, ◌==◌, ==_iff, not,
  if◌then◌else◌, keep,
}
use progressive_desktop.Rooms.{RoomData}
use progressive_desktop.RoomMenu.{RoomModel, IsRoomModel, HiddenStore, IsHiddenStore}
use progressive_desktop.KeyShare.{SharedKeys}

-- The newest entry for a room counts; the second part says which rooms are hidden.
abbrev pub Shelf : Type 0
Shelf = List RoomData × (Text → Bool)

abbrev pub find_room : Text → List RoomData → Option RoomData
find_room k [] = none
find_room k (r ∷ rs) = if r.room_id == k then some r else find_room k rs

abbrev pub without : Text → List RoomData → List RoomData
without k rs = keep (λ r. not (r.room_id == k)) rs

abbrev pub mark : Text → Bool → (Text → Bool) → Text → Bool
mark j b f k = if j == k then b else f k

find_room-without :
    (j k : Text) (rs : List RoomData)
    → find_room k (without j rs) ≡ (if j == k then none else find_room k rs)
find_room-without j k [] = ground arith
find_room-without j k (r ∷ rs) =
    ground (arith, find_room-without j k rs, ==_iff r.room_id j, ==_iff r.room_id k, ==_iff j k)

find_room_id :
    (k : Text) (r : RoomData) (rs : List RoomData) → find_room k rs ≡ some r → r.room_id ≡ k
find_room_id k r [] e = ground arith
find_room_id k r (x ∷ rs) e = ground (arith, find_room_id k r rs, ==_iff x.room_id k)

abbrev pub shelf : RoomModel Shelf
shelf = record {
  list = record {
    find = λ k s. find_room k s.0;
    upsert_room = λ r s. (r ∷ s.0, s.1);
    remove_room = λ k s. (without k s.0, s.1);
  };
  write = λ r s. (r ∷ s.0, s.1);
  is_hidden = λ k s. s.1 k;
  hide_room = λ j s. (s.0, mark j true s.1);
  unhide_room = λ j s. (s.0, mark j false s.1);
}

pub shelf_laws : IsRoomModel shelf
shelf_laws = record {
  listed = record { find-upsert = λ k r s. refl; find-remove = λ k j s. find_room-without j k s.0 };
  find_id = λ k r s e. find_room_id k r s.0 e;
  find-write = λ k old r s e. refl;
  find-hide = λ k j s. refl;
  find-unhide = λ k j s. refl;
  hidden-hide = λ k j s. refl;
  hidden-unhide = λ k j s. refl;
  hidden-remove = λ k j s. refl;
  hidden-write = λ k r s. refl;
}

abbrev pub hidden : HiddenStore (Text → Bool)
hidden = record {
  is_saved = λ k t. t k;
  save_hidden_room = λ j t. mark j true t;
  remove_hidden_room = λ j t. mark j false t;
}

pub hidden_laws : IsHiddenStore hidden
hidden_laws = record { saved-save = λ k j t. refl; saved-remove = λ k j t. refl }

abbrev pub shared : SharedKeys (Text → Bool)
shared = record { is_shared = λ k t. t k; mark_shared = λ j t. mark j true t }
