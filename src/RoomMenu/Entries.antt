-- ===== src/RoomMenu/Entries.antt =====
-- What a use of the menu of src/ui/handlers/room_context_menu.cpp does, seen from one room.
use progressive_desktop.Base.{
  ◌≡◌, refl, Bool, true, false, Option, none, some, List, [], ◌∷◌, arith, Text, ◌==◌, ==_iff, ◌&&◌,
  if◌then◌else◌, Option-cases, inl, inr,
}
use progressive_desktop.Engine.{ApiResult}
use progressive_desktop.Rooms.{RoomData}
use progressive_desktop.RoomMenu.{
  RoomModel, IsRoomModel, HiddenStore, IsHiddenStore, Choice, leave, accept, reject, forget, hide,
  Call, leave_room, join_room, Use, State, is_offered, tell, ask, remove, unhide, leave_answer,
  join_answer, reject_answer, forget_answer, forget_job, hide_here, choose,
  on_room_list_context_menu,
}

-- A room as the list, its hidden rooms and the store know it.
pub record Entry : Type 0 where
  pub listed : Option RoomData
  pub hidden : Bool
  pub saved : Bool

-- How a use ends for its room.
pub data Outcome : Type 0 where
  untouched gone joined out_of_sight : Outcome

abbrev pub accepted : Use → Call → Bool
accepted u c = u.alive && (u.reply c).ok

abbrev pub ending : Use → Choice → Outcome
ending u leave = if u.confirmed && accepted u (leave_room u.room.room_id) then gone else untouched
ending u reject = if accepted u (leave_room u.room.room_id) then gone else untouched
ending u forget = if accepted u (leave_room u.room.room_id) then gone else untouched
ending u accept = if accepted u (join_room u.room.room_id) then joined else untouched
ending u hide = out_of_sight

abbrev pub outcome : Use → Outcome
outcome u = elim u.picked [
  | none ↦ untouched
  | some c ↦ if is_offered u.room c then ending u c else untouched
]

abbrev pub no_invite : Option RoomData → Option RoomData
no_invite none = none
no_invite (some r) = some (record r { is_invite = false })

abbrev pub settle : Outcome → Bool → Entry → Entry
settle untouched store e = e
settle gone store e = record {
  listed = none;
  hidden = false;
  saved = if store then false else e.saved;
}
settle joined store e = record e { listed = no_invite e.listed }
settle out_of_sight store e = record {
  listed = none;
  hidden = true;
  saved = if store then true else e.saved;
}

-- The specification: the uses of the menu, for one room.
abbrev pub settle_all : Text → List Use → Entry → Entry
settle_all k [] e = e
settle_all k (u ∷ us) e =
    settle_all k us (if u.room.room_id == k then settle (outcome u) u.store e else e)

module _ {S T : Type 0} (m : RoomModel S) (h : HiddenStore T) where
  abbrev pub entry : Text → State S T → Entry
  entry k s = record {
    listed = m.find k s.rooms;
    hidden = m.is_hidden k s.rooms;
    saved = h.is_saved k s.saved;
  }

  abbrev pub run : List Use → State S T → State S T
  run [] s = s
  run (u ∷ us) s = run us (on_room_list_context_menu m h u s)

  module _ (lm : IsRoomModel m) (lh : IsHiddenStore h) (k : Text) where
    -- The room leaves the list and counts as hidden no more, in either order.
    gone-entry :
        (u : Use) (rid : Text) (s : State S T)
        → entry k (unhide m h u rid (remove m h u rid s))
          ≡ (if rid == k then settle gone u.store (entry k s) else entry k s)
    unfolding unhide remove
    gone-entry u rid s = ground (
      arith,
      lm.find-unhide k rid (m.remove_room rid s.rooms),
      lm.listed.find-remove k rid s.rooms,
      lm.hidden-unhide k rid (m.remove_room rid s.rooms),
      lm.hidden-remove k rid s.rooms,
      lh.saved-remove k rid s.saved,
    )

    gone-entry_later :
        (u : Use) (rid : Text) (s : State S T)
        → entry k (remove m h u rid (unhide m h u rid s))
          ≡ (if rid == k then settle gone u.store (entry k s) else entry k s)
    unfolding unhide remove
    gone-entry_later u rid s = ground (
      arith,
      lm.find-unhide k rid s.rooms,
      lm.listed.find-remove k rid (m.unhide_room rid s.rooms),
      lm.hidden-unhide k rid s.rooms,
      lm.hidden-remove k rid (m.unhide_room rid s.rooms),
      lh.saved-remove k rid s.saved,
    )

    hide_here-entry :
        (u : Use) (rid : Text) (s : State S T)
        → entry k (hide_here m h u rid s)
          ≡ (if rid == k then settle out_of_sight u.store (entry k s) else entry k s)
    unfolding hide_here
    hide_here-entry u rid s = ground (
      arith,
      lm.find-hide k rid s.rooms,
      lm.listed.find-remove k rid (m.hide_room rid s.rooms),
      lm.hidden-hide k rid s.rooms,
      lm.hidden-remove k rid (m.hide_room rid s.rooms),
      lh.saved-save k rid s.saved,
    )

    join_answer-entry :
        (u : Use) (rid : Text) (res : ApiResult) (s : State S T)
        → entry k (join_answer m h u rid res s) ≡ (
            if rid == k
            then settle (if u.alive && res.ok then joined else untouched) u.store (entry k s)
            else entry k s)
    unfolding join_answer
    join_answer-entry u rid res s = elim (Option-cases (m.find rid s.rooms)) [
      | inl e ↦ ground (arith, ==_iff rid k)
      | inr (rd, e) ↦ ground (
        arith,
        ==_iff rid k,
        lm.find_id rid rd s.rooms,
        lm.find-write k rd (record rd { is_invite = false }) s.rooms,
        lm.hidden-write k (record rd { is_invite = false }) s.rooms,
      )
    ]

    choose-entry :
        (u : Use) (c : Choice) (s : State S T)
        → entry k (choose m h u c u.room.room_id s)
          ≡ (if u.room.room_id == k then settle (ending u c) u.store (entry k s) else entry k s)
    unfolding choose leave_answer reject_answer forget_job forget_answer tell ask
    choose-entry u leave s = ground (arith, gone-entry u u.room.room_id s)
    choose-entry u accept s =
        join_answer-entry u u.room.room_id (u.reply (join_room u.room.room_id)) _
    choose-entry u reject s = ground (arith, gone-entry u u.room.room_id s)
    choose-entry u forget s = ground (arith, gone-entry_later u u.room.room_id s)
    choose-entry u hide s = hide_here-entry u u.room.room_id s

    menu-entry :
        (u : Use) (s : State S T)
        → entry k (on_room_list_context_menu m h u s)
          ≡ (if u.room.room_id == k then settle (outcome u) u.store (entry k s) else entry k s)
    unfolding on_room_list_context_menu
    menu-entry u s = elim (Option-cases u.picked) [
      | inl e ↦ ground arith
      | inr (c, e) ↦ ground (arith, choose-entry u c s)
    ]

    -- The menu refines its specification: after any uses of it, each room stands in the list, among
    -- the hidden rooms and in the store as the outcomes of the uses say, one room at a time. A room is
    -- gone only after the server let it be left, is joined only after the server let it be joined, and
    -- is out of sight only after it was hidden here.
    pub run-entry :
        (us : List Use) (s : State S T) → entry k (run us s) ≡ settle_all k us (entry k s)
    run-entry [] s = refl
    run-entry (u ∷ us) s =
        rw (run-entry us (on_room_list_context_menu m h u s), menu-entry u s) refl
