-- ===== src/Profile.antt =====
-- The profile of a user, src/ui/profile/user_profile_dialog.cpp, and one's own, src/ui/profile_dialog.cpp. Parsed answers are
-- arguments; a handler with its pool job and callback is a list of actions.
pub mod Powers
use progressive_desktop.Base.{
  ℕ, suc, ◌-◌, Bool, true, false, Option, none, some, List, [], ◌∷◌, ◌++◌, Text, text, is_empty,
  ◌==◌, not, ◌&&◌, ◌||◌, if◌then◌else◌, Map, lookup, insert, length, leb, take, drop, index_of,
  starts_with,
}
use progressive_desktop.Base.Int.{ℤ, pos, ltb_ℤ}
use progressive_desktop.Engine.{ApiResult}
use progressive_desktop.Members.{device_to_verify}

-- An event of the room's state: its type, and the levels of its `users`, where they are there.
pub record StateEvent : Type 0 where
  pub event_type : Option Text
  pub users : Option (Map ℤ)

abbrev pub level_of : Text → Map ℤ → ℤ
level_of id users = elim (lookup id users) [ none ↦ pos 0 | some n ↦ n ]

abbrev pub is_power : StateEvent → Bool
is_power e = elim e.event_type [ none ↦ false | some t ↦ t == text "m.room.power_levels" ]

-- Our power and that of the user, by the first event that has the levels.
unfoldable pub read_powers : Text → Text → List StateEvent → ℤ × ℤ
read_powers mine theirs [] = (pos 0, pos 0)
read_powers mine theirs (e ∷ es) =
    let rest = read_powers mine theirs es in
    let here : ℤ × ℤ = elim e.users [
      | none ↦ (pos 0, pos 0)
      | some users ↦ (level_of mine users, level_of theirs users)
    ] in
    if is_power e then here else rest

pub data Call : Type 0 where
  start_direct_message : Text → Call
  kick_user : Text → Text → Call
  ban_user : Text → Text → Text → Call
  set_user_power_level : Text → Text → ℕ → Call
  download_media : Text → Call

pub data Action : Type 0 where
  call : Call → Action
  status : Text → Action
  verify_requested : Text → Text → Action
  clipboard : Text → Action

pub record Shown : Type 0 where
  pub power_text : Text
  pub manage_shown : Bool
  pub name : Text
  pub avatar : Option Text

abbrev pub local_part : Text → Text
local_part id =
    if starts_with b'@' id
    then elim (index_of b':' id) as (λ x. Text) [
      | none ↦ drop 1 id
      | some i ↦ take (i - 1) (drop 1 id)
    ]
    else id

module _ (decimal_ℤ : ℤ → Text) where
  unfoldable pub power_text_of : ℤ → Text
  power_text_of theirs =
      if not (ltb_ℤ theirs (pos 100))
      then text "Power: 100 (Admin)"
      else if not (ltb_ℤ theirs (pos 50))
      then text "Power: " ++ decimal_ℤ theirs ++ text " (Moderator)"
      else text "Power: " ++ decimal_ℤ theirs ++ text " (User)"

  -- The callback of the profile: `profile` is what is read of it, if it can be read. The buttons that manage
  -- the user are shown or stay hidden together.
  unfoldable pub profile_loaded : Text → ℤ × ℤ → Option (Option Text × Option Text) → Text → Shown
  unfolding power_text_of
  profile_loaded user_id (mine, theirs) profile old_name = record {
    power_text = power_text_of theirs;
    manage_shown = not (ltb_ℤ mine (pos 50)) && ltb_ℤ theirs mine;
    name = elim profile as (λ x. Text) [
      | none ↦ old_name
      | some (dn, av) ↦ elim dn as (λ x. Text) [ none ↦ local_part user_id | some n ↦ n ]
    ];
    avatar = elim profile as (λ x. Option Text) [ none ↦ none | some (dn, av) ↦ av ];
  }

-- The avatars of all profiles that were opened, 64 at most.
unfoldable pub put_avatar : {P : Type 0} → Text → P → Map P → Map P
put_avatar url pix cache = insert url pix (if leb 64 (length cache) then [] else cache)

pub record World : Type 0 where
  pub room : Text
  pub user : Text
  pub alive : Bool
  pub reply : Call → ApiResult

module _ (w : World) where
  -- A call with its words.
  unfoldable pub perform : Text → Call → (ApiResult → Text) → List Action
  perform begun c done =
      let r = w.reply c in
      status begun
      ∷ call c
      ∷ (if not w.alive
          then []
          else if r.ok
          then status (done r) ∷ []
          else status (text "Failed: " ++ r.message) ∷ [])

  unfoldable pub on_send_dm : List Action
  unfolding perform
  on_send_dm =
      perform (text "Creating DM...") (start_direct_message w.user)
        (λ r. text "DM created: " ++ r.content)

  unfoldable pub on_kick : Bool → List Action
  unfolding perform
  on_kick confirmed =
      let go = perform (text "Kicking...") (kick_user w.room w.user) (λ r. text "User kicked.") in
      if confirmed then go else []

  unfoldable pub on_ban : Option Text → List Action
  unfolding perform
  on_ban none = []
  on_ban (some reason) =
      perform (text "Banning...") (ban_user w.room w.user reason) (λ r. text "User banned.")

  unfoldable pub on_promote : List Action
  unfolding perform
  on_promote =
      perform (text "Promoting...") (set_user_power_level w.room w.user 50)
        (λ r. text "User promoted to moderator.")

  unfoldable pub on_demote : List Action
  unfolding perform
  on_demote =
      perform (text "Demoting...") (set_user_power_level w.room w.user 0)
        (λ r. text "User demoted.")

  unfoldable pub on_make_admin : List Action
  unfolding perform
  on_make_admin =
      perform (text "Making admin...") (set_user_power_level w.room w.user 100)
        (λ r. text "User is now an admin.")

  -- `onVerify`: the devices of the user, none in number where the answer cannot be read.
  unfoldable pub on_verify : Bool → Text → List Text → List Action
  on_verify logged_in our_device devices =
      let found : List Action = elim (device_to_verify our_device devices) [
        | none ↦ status (text "No other devices to verify.") ∷ []
        | some d ↦
            if is_empty d
            then status (text "No other devices to verify.") ∷ []
            else verify_requested w.user d ∷ status (text "Verification started...") ∷ []
      ] in
      if not logged_in
      then []
      else status (text "Checking devices...") ∷ (if w.alive then found else [])

  unfoldable pub on_copy_mxid : List Action
  on_copy_mxid = clipboard w.user ∷ status (text "MXID copied!") ∷ []
