-- ===== src/Members.antt =====
-- The members of a room: src/ui/profile/room_members_dialog.cpp (the list, its shields and its filter) and
-- loadMembers and batchLoadRoomStates of src/ui/room/room_data_loader.cpp. Parsed answers are arguments.
pub mod Shields
pub mod Fallback
pub mod States
use progressive_desktop.Base.{
  ℕ, Bool, true, false, Option, none, some, List, [], ◌∷◌, ◌++◌, map, Text, text, is_empty, ◌==◌,
  not, ◌&&◌, ◌||◌, if◌then◌else◌, Map, lookup, insert, keep, length, eqb, ltb, starts_with,
}
use progressive_desktop.Engine.{DisplayedEvent, ApiResult}
use progressive_desktop.Rooms.{RoomData}
use progressive_desktop.RoomHandler.{MemberInfo}

-- An event of `chunk` that has a content: its membership, state key, display name and avatar, where they
-- are texts.
pub record MemberEvent : Type 0 where
  pub membership : Option Text
  pub state_key : Option Text
  pub displayname : Option Text
  pub avatar_url : Option Text

abbrev pub or_empty : Option Text → Text
or_empty none = []
or_empty (some t) = t

abbrev pub is_join : MemberEvent → Bool
is_join e = elim e.membership [ none ↦ false | some kind ↦ kind == text "join" ]

abbrev pub info : MemberEvent → MemberInfo
info e = record {
  user_id = or_empty e.state_key;
  display_name = or_empty e.displayname;
  avatar_url = or_empty e.avatar_url;
}

unfoldable pub read_members : List MemberEvent → List MemberInfo
read_members es = map info (keep is_join es)

-- A profile that the server has: its display name and avatar, none where the answer is no good.
unfoldable pub profile_members :
    (Text → Option (Option Text × Option Text)) → List Text → List MemberInfo
profile_members profile [] = []
profile_members profile (uid ∷ uids) =
    let rest = profile_members profile uids in
    elim (profile uid) as (λ x. List MemberInfo) [
      | none ↦ rest
      | some (dn, av) ↦
          record { user_id = uid; display_name = or_empty dn; avatar_url = or_empty av } ∷ rest
    ]

-- `loadMembers`: the list of the server, or else the profiles of those who are asked for.
unfoldable pub load_members :
    (Text → Option (Option Text × Option Text))
    → Option (List MemberEvent)
    → List Text
    → List MemberInfo
unfolding read_members profile_members
load_members profile (some es) relevant = read_members es
load_members profile none relevant = profile_members profile relevant

-- `DeviceTrust`.
pub data DeviceTrust : Type 0 where
  unverified trusted verified : DeviceTrust

-- The loop over the devices of a user: what the keys say of each, and whether the store has it as verified.
unfoldable pub trust_level : ℕ → List (DeviceTrust × Bool) → ℕ
trust_level level [] = level
trust_level level ((trust, in_store) ∷ rest) =
    let by_keys = elim trust as (λ x. ℕ) [
      | verified ↦ 2
      | trusted ↦ if ltb level 2 then 1 else level
      | unverified ↦ level
    ] in
    trust_level (if in_store then 2 else by_keys) rest

unfoldable pub shield_color : ℕ → Text
shield_color level =
    if eqb level 2 then text "#4CAF50" else if eqb level 1 then text "#9E9E9E" else text "#F44336"

-- The body of the query for the keys of all members.
unfoldable pub query_users : List MemberInfo → Text
query_users [] = []
query_users (m ∷ []) = text "\"" ++ m.user_id ++ text "\":[]"
query_users (m ∷ n ∷ ms) = text "\"" ++ m.user_id ++ text "\":[]," ++ query_users (n ∷ ms)

unfoldable pub query_body : List MemberInfo → Text
unfolding query_users
query_body ms = text "{\"device_keys\":{" ++ query_users ms ++ text "}}"

-- The senders of the timeline, each once: `seen` are those that were met.
abbrev pub is_seen : Text → List Text → Bool
is_seen id [] = false
is_seen id (s ∷ seen) = s == id || is_seen id seen

unfoldable pub local_members : List Text → List DisplayedEvent → List MemberInfo
local_members seen [] = []
local_members seen (d ∷ ds) =
    let rest = local_members (d.sender_id ∷ seen) ds in
    let same = local_members seen ds in
    if is_empty d.sender_id || is_seen d.sender_id seen
    then same
    else record { user_id = d.sender_id; display_name = d.sender_name; avatar_url = d.avatar_url }
      ∷ rest

pub record Dialog : Type 0 where
  pub all_members : List MemberInfo
  pub user_trust : Map ℕ
  pub loaded : Bool
  pub status : Text
  pub reload_enabled : Bool

-- `lower` is `QString::toLower`, `has_part` is `contains`, `trimmed` is `trimmed`, `decimal` is `arg`.
module _ (lower trimmed : Text → Text) (has_part : Text → Text → Bool) (decimal : ℕ → Text) where
  -- The reply to the list of members.
  unfoldable pub members_loaded :
      Option (List MemberEvent) → ApiResult → Map ℕ → List DisplayedEvent → Dialog → Dialog
  unfolding read_members local_members
  members_loaded chunk r trust timeline d =
      let fetched = elim chunk as (λ x. List MemberInfo) [
        | none ↦ []
        | some es ↦ if r.ok then read_members es else []
      ] in
      let reason = text "HTTP " ++ decimal r.http_status ++ text " " ++ r.message in
      let local = local_members [] timeline in
      let members = if is_empty fetched && not r.ok then local else fetched in
      record {
        all_members = members;
        user_trust = trust;
        loaded = true;
        status =
            if is_empty fetched && not r.ok
            then (if is_empty local
                then text "Failed to load members: " ++ reason
                else text "Server fetch failed ("
                  ++ reason
                  ++ text ") — showing "
                  ++ decimal (length local)
                  ++ text " local members")
            else if is_empty members
            then text "No members found"
            else decimal (length members) ++ text " members";
        reload_enabled = true;
      }

  abbrev pub shown_name : MemberInfo → Text
  shown_name m = if is_empty m.display_name then m.user_id else m.display_name

  unfoldable pub is_shown : Text → MemberInfo → Bool
  is_shown typed m =
      let search = lower (trimmed typed) in
      is_empty search || has_part search (lower (shown_name m)) || has_part search (lower m.user_id)

  unfoldable pub member_line : Dialog → MemberInfo → Text
  unfolding shield_color
  member_line d m =
      let level : ℕ = elim (lookup m.user_id d.user_trust) [ none ↦ 0 | some l ↦ l ] in
      text "<span style='color:" ++ shield_color level ++ text ";'>●</span> " ++ shown_name m

  -- `applyFilter`: the lines of the list, each with the user it stands for.
  unfoldable pub apply_filter : Text → Dialog → List (Text × Text)
  unfolding is_shown member_line
  apply_filter typed d =
      map (λ (m : MemberInfo). (member_line d m, m.user_id)) (keep (is_shown typed) d.all_members)

-- `onInviteClicked`: the id that is invited; none where nothing is asked of the server.
unfoldable pub invite_id : (Text → Text) → Bool → Option Text → Option Text
invite_id trimmed client none = none
invite_id trimmed client (some typed) =
    let id = trimmed typed in
    if not client || is_empty id then none else some (if starts_with b'@' id then id else b'@' ∷ id)

-- The device of the user that is verified: the first one that is not our own.
unfoldable pub device_to_verify : Text → List Text → Option Text
device_to_verify ours [] = none
device_to_verify ours (dev ∷ devs) = if dev == ours then device_to_verify ours devs else some dev

-- `batchLoadRoomStates`: the replies for the name, the avatar and the encryption of a room.
pub record StateReplies : Type 0 where
  pub name_reply : ApiResult
  pub avatar_reply : ApiResult
  pub encryption_reply : ApiResult

abbrev pub has_content : ApiResult → Bool
has_content r = r.ok && not (is_empty r.content)

module _ (extract : Text → Text → Text) where
  unfoldable pub load_name : ApiResult → RoomData → RoomData
  load_name r rd =
      let name = extract r.content (text "name") in
      if has_content r && not (is_empty name) && (rd.name == rd.room_id || is_empty rd.name)
      then record rd { name = name }
      else rd

  unfoldable pub load_avatar : ApiResult → RoomData → RoomData
  load_avatar r rd =
      let url = extract r.content (text "url") in
      if has_content r && not (is_empty url) && is_empty rd.avatar_url
      then record rd { avatar_url = url }
      else rd

  unfoldable pub load_encryption : ApiResult → RoomData → RoomData
  load_encryption r rd = if has_content r then record rd { is_encrypted = true } else rd

  unfoldable pub load_room_state : StateReplies → RoomData → RoomData
  unfolding load_name load_avatar load_encryption
  load_room_state s rd =
      record (load_encryption s.encryption_reply
        (load_avatar s.avatar_reply (load_name s.name_reply rd))) { state_loaded = true }

-- The rooms whose state is asked for.
unfoldable pub rooms_to_load : List RoomData → List Text
rooms_to_load rooms =
    map (λ (r : RoomData). r.room_id) (keep (λ r. not r.is_invite && not r.state_loaded) rooms)
