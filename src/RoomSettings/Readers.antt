-- ===== src/RoomSettings/Readers.antt =====
-- The two readers of a list of members, in src/ui/dialogs/room_settings_dialog.cpp and in
-- src/ui/profile/room_members_dialog.cpp.
use progressive_desktop.Base.{◌≡◌, refl, ◌≢◌, List, [], ◌∷◌, map, arith, keep, All}
use progressive_desktop.RoomHandler
use progressive_desktop.Members.{MemberEvent, or_empty, read_members}
use progressive_desktop.RoomSettings.{MemberInfo, parse_members_response, is_listed}

-- An event as the server sends it: it names its user and says how the user stands to the room.
abbrev pub IsComplete : MemberEvent → Type 0
IsComplete e = (or_empty e.state_key ≢ []) × (or_empty e.membership ≢ [])

-- Of complete events both dialogs list the same users, in the same order.
pub is_listed-read_members :
    (es : List MemberEvent)
    → All IsComplete es
    → map (λ (m : MemberInfo). m.user_id) (keep is_listed (parse_members_response es))
      ≡ map (λ (m : RoomHandler.MemberInfo). m.user_id) (read_members es)
unfolding parse_members_response is_listed read_members
is_listed-read_members [] h = refl
is_listed-read_members (e ∷ es) ((k, m), h) = ground (arith, is_listed-read_members es h, k, m)
