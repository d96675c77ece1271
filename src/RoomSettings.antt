-- ===== src/RoomSettings.antt =====
-- src/ui/dialogs/room_settings_dialog.cpp: name, topic and members of a room, and what a moderator does to a member. Parsed
-- answers are arguments; a handler with its pool job and callback is a list of actions.
pub mod Readers
use progressive_desktop.Base.{
  ℕ, Bool, true, false, Option, none, some, List, [], ◌∷◌, ◌++◌, map, Text, text, is_empty, ◌==◌,
  not, ◌&&◌, ◌||◌, if◌then◌else◌, length, keep,
}
use progressive_desktop.Engine.{ApiResult}
use progressive_desktop.Members.{MemberEvent, or_empty}

pub record MemberInfo : Type 0 where
  pub user_id : Text
  pub displayname : Text
  pub membership : Text
  pub avatar_url : Text

abbrev pub info : MemberEvent → MemberInfo
info e = record {
  user_id = or_empty e.state_key;
  displayname = or_empty e.displayname;
  membership = or_empty e.membership;
  avatar_url = or_empty e.avatar_url;
}

unfoldable pub parse_members_response : List MemberEvent → List MemberInfo
parse_members_response es = keep (λ m. not (is_empty m.user_id)) (map info es)

-- The last topic among the events of the state, each with its type and its topic, where they are texts.
unfoldable pub read_topic : List (Option Text × Option Text) → Text → Text
read_topic [] old = old
read_topic ((kind, topic) ∷ es) old =
    let is_topic : Bool = elim kind [ none ↦ false | some k ↦ k == text "m.room.topic" ] in
    let new : Text = elim topic [ none ↦ old | some t ↦ t ] in
    read_topic es (if is_topic then new else old)

pub record Dialog : Type 0 where
  pub topic : Text
  pub members : List (Text × Text)
  pub status : Text

-- The reply to the request for the state; none where it is no array.
unfoldable pub state_loaded :
    ApiResult → Option (List (Option Text × Option Text)) → Dialog → Dialog
unfolding read_topic
state_loaded r events d =
    let topic : Text = elim events [ none ↦ d.topic | some es ↦ read_topic es d.topic ] in
    if r.ok
    then record d { topic = topic; status = text "Ready." }
    else record d { status = text "Failed to load state: " ++ r.message }

unfoldable pub is_listed : MemberInfo → Bool
is_listed m = m.membership == text "join" || is_empty m.membership

-- The words of a member and the user they stand for.
unfoldable pub line : MemberInfo → Text × Text
line m = (
  (if is_empty m.displayname then m.user_id else m.displayname)
      ++ text "  ("
      ++ m.user_id
      ++ text ")",
  m.user_id,
)

-- `loadMembers`, which clears the list first.
unfoldable pub members_loaded : (ℕ → Text) → ApiResult → List MemberEvent → Dialog → Dialog
unfolding parse_members_response is_listed line
members_loaded decimal r events d =
    let members = parse_members_response events in
    let listed = keep is_listed members in
    if not r.ok
    then record d { members = []; status = text "Failed to load members: " ++ r.message }
    else if is_empty members
    then record d { members = []; status = text "No members found." }
    else record d {
      members = map line listed;
      status = decimal (length listed) ++ text " members.";
    }

pub data Call : Type 0 where
  set_room_topic : Text → Text → Call
  set_room_name : Text → Text → Call
  kick_user : Text → Text → Text → Call
  ban_user : Text → Text → Text → Call
  set_user_power_level : Text → Text → ℕ → Call

pub data Action : Type 0 where
  call : Call → Action
  status : Text → Action
  load_members : Action

-- The entries of the menu of a member.
pub data Choice : Type 0 where
  kick ban make_mod make_admin reset_level : Choice

module _ (room : Text) (alive : Bool) (reply : Call → ApiResult) where
  -- A call with its words.
  unfoldable pub perform : Text → Call → Text → List Action
  perform begun c done =
      status begun
      ∷ call c
      ∷ (if not alive
          then []
          else if (reply c).ok
          then status done ∷ []
          else status (text "Failed: " ++ (reply c).message) ∷ [])

  unfoldable pub on_save_topic_clicked : Text → List Action
  unfolding perform
  on_save_topic_clicked topic =
      perform (text "Saving topic...") (set_room_topic room topic) (text "Topic saved.")

  unfoldable pub on_save_name_clicked : Text → List Action
  unfolding perform
  on_save_name_clicked name =
      perform (text "Saving name...") (set_room_name room name) (text "Name saved.")

  -- `reason` is what the question is answered with.
  unfoldable pub choice_call : Text → Choice → Option Text → Option Call
  choice_call user kick none = none
  choice_call user kick (some reason) = some (kick_user room user reason)
  choice_call user ban none = none
  choice_call user ban (some reason) = some (ban_user room user reason)
  choice_call user make_mod reason = some (set_user_power_level room user 50)
  choice_call user make_admin reason = some (set_user_power_level room user 100)
  choice_call user reset_level reason = some (set_user_power_level room user 0)

  -- The members are loaded again whatever the server answered.
  unfoldable pub show_member_menu : Text → Option Choice → Option Text → List Action
  unfolding choice_call
  show_member_menu user none reason = []
  show_member_menu user (some choice) reason = elim (choice_call user choice reason) [
    | none ↦ []
    | some c ↦ call c ∷ load_members ∷ []
  ]
