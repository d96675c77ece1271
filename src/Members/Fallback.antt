-- ===== src/Members/Fallback.antt =====
-- The members that src/ui/profile/room_members_dialog.cpp finds in the timeline where the server's list fails.
use progressive_desktop.Base.{
  ◌≡◌, Bool, false, List, [], ◌∷◌, arith, Text, is_empty, ◌==◌, ==_iff, not, ◌&&◌, ◌||◌,
  if◌then◌else◌, count_if,
}
use progressive_desktop.Engine.{DisplayedEvent}
use progressive_desktop.RoomHandler.{MemberInfo}
use progressive_desktop.Members.{is_seen, local_members}

abbrev pub has_sender : Text → List DisplayedEvent → Bool
has_sender id [] = false
has_sender id (d ∷ ds) = d.sender_id == id || has_sender id ds

abbrev is_id : Text → MemberInfo → Bool
is_id id m = m.user_id == id

local_members-seen :
    (id : Text) (seen : List Text) (ds : List DisplayedEvent)
    → count_if (is_id id) (local_members seen ds)
      ≡ (if not (is_empty id) && not (is_seen id seen) && has_sender id ds then 1 else 0)
unfolding local_members
local_members-seen id seen [] = ground arith
local_members-seen id seen (d ∷ ds) = ground (
  arith,
  local_members-seen id seen ds,
  local_members-seen id (d.sender_id ∷ seen) ds,
  ==_iff d.sender_id id,
)

-- The members that are taken from the timeline are the senders of its rows, each of them once, however many
-- rows it sent; a row without a sender counts for nobody.
pub local_members-count :
    (id : Text) (ds : List DisplayedEvent)
    → count_if (λ (m : MemberInfo). m.user_id == id) (local_members [] ds)
      ≡ (if not (is_empty id) && has_sender id ds then 1 else 0)
local_members-count id ds = ground (arith, local_members-seen id [] ds)
