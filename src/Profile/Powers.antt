-- ===== src/Profile/Powers.antt =====
-- Who may be managed from src/ui/profile/user_profile_dialog.cpp, and what its buttons do to a user's power.
use progressive_desktop.Base.{
  ℕ, ◌≤◌, ◌<◌, ◌≡◌, true, Option, List, [], ◌∷◌, arith, Text, Map, insert, length, length-insert,
}
use progressive_desktop.Base.Int.{ℤ, pos}
use progressive_desktop.Profile.{
  profile_loaded, put_avatar, World, set_user_power_level, Action, call, perform, on_promote,
}

-- The powers that the actions ask the server for.
abbrev pub powers : List Action → List ℕ
powers [] = []
powers (call (set_user_power_level room user n) ∷ as') = n ∷ powers as'
powers (x ∷ as') = powers as'

-- The button that promotes a user to moderator is shown for a user who stands above a moderator, where we
-- stand higher still, and lowers the power of that user.
pub on_promote_lowers :
    (decimal_ℤ : ℤ → Text) (w : World) (mine theirs : ℕ)
    (profile : Option (Option Text × Option Text)) (old_name : Text)
    → 50 < theirs
    → theirs < mine
    → ((profile_loaded decimal_ℤ w.user (pos mine, pos theirs) profile old_name).manage_shown
        ≡ true)
      × ((n : ℕ) × (powers (on_promote w) ≡ n ∷ []) × (n < theirs))
unfolding profile_loaded on_promote perform
on_promote_lowers decimal_ℤ w mine theirs profile old_name h k =
    (ground arith, (50, ground arith, h))

-- The cache of avatars stays within 64 entries.
pub put_avatar-length :
    {P : Type 0} (url : Text) (pix : P) (cache : Map P)
    → length cache ≤ 64
    → length (put_avatar url pix cache) ≤ 64
unfolding put_avatar insert
put_avatar-length url pix cache h = ground (arith, length-insert url pix cache)
