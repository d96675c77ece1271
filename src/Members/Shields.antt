-- ===== src/Members/Shields.antt =====
-- The shield of a member in src/ui/profile/room_members_dialog.cpp, against the levels of the devices.
use progressive_desktop.Base.{
  ◌≡◌, refl, Bool, true, false, List, [], ◌∷◌, arith, ◌||◌, if◌then◌else◌,
}
use progressive_desktop.Members.{DeviceTrust, unverified, trusted, verified, trust_level}

-- A device that was verified, by the keys or in the store; one that the keys sign.
abbrev pub some_verified : List (DeviceTrust × Bool) → Bool
some_verified [] = false
some_verified ((verified, in_store) ∷ rest) = true
some_verified ((trust, in_store) ∷ rest) = in_store || some_verified rest

abbrev pub some_trusted : List (DeviceTrust × Bool) → Bool
some_trusted [] = false
some_trusted ((trusted, in_store) ∷ rest) = true
some_trusted ((trust, in_store) ∷ rest) = some_trusted rest

stays_verified : (ds : List (DeviceTrust × Bool)) → trust_level 2 ds ≡ 2
unfolding trust_level
stays_verified [] = refl
stays_verified ((unverified, b) ∷ ds) = ground (arith, stays_verified ds)
stays_verified ((trusted, b) ∷ ds) = ground (arith, stays_verified ds)
stays_verified ((verified, b) ∷ ds) = ground (arith, stays_verified ds)

from_trusted :
    (ds : List (DeviceTrust × Bool)) → trust_level 1 ds ≡ (if some_verified ds then 2 else 1)
unfolding trust_level
from_trusted [] = refl
from_trusted ((unverified, b) ∷ ds) = ground (arith, from_trusted ds, stays_verified ds)
from_trusted ((trusted, b) ∷ ds) = ground (arith, from_trusted ds, stays_verified ds)
from_trusted ((verified, b) ∷ ds) = ground (arith, stays_verified ds)

-- A member's level is that of the best of its devices, in whatever order they come: 2 where one was
-- verified, by the keys or in the store, else 1 where the keys sign one, else 0. One verified device is
-- enough, however many others are not.
pub trust_level_best :
    (ds : List (DeviceTrust × Bool))
    → trust_level 0 ds ≡ (if some_verified ds then 2 else if some_trusted ds then 1 else 0)
unfolding trust_level
trust_level_best [] = refl
trust_level_best ((unverified, b) ∷ ds) = ground (arith, trust_level_best ds, stays_verified ds)
trust_level_best ((trusted, b) ∷ ds) = ground (arith, from_trusted ds, stays_verified ds)
trust_level_best ((verified, b) ∷ ds) = ground (arith, stays_verified ds)
