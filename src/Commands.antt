-- ===== src/Commands.antt =====
-- src/ui/handlers/slash_command_handler.cpp: the registry of slash commands and its handlers. A call of
-- the homeserver runs on the thread pool; its reply comes back as a row of the timeline.
pub mod Arguments
pub mod Dispatch
use progressive_desktop.Base.{
  ◌≡◌, Bool, true, false, Option, none, some, List, [], ◌∷◌, ◌++◌, Text, text, ◌==◌, is_empty, not,
  ◌&&◌, ◌||◌, if◌then◌else◌, split_blank, starts_with,
}

-- The member functions that a registry entry may point to.
pub data Handler : Type 0 where
  invite join leave kick ban unban roomname clear logout : Handler

-- `run` is the pointer to the member function; `none` is the null pointer.
pub record Command : Type 0 where
  pub name : Text
  pub args_help : Text
  pub description : Text
  pub run : Option Handler

-- A call of `MatrixClient`.
pub data Request : Type 0 where
  invite_user : Text → Text → Request
  join_room : Text → Request
  leave_room : Text → Request
  kick_user ban_user : Text → Text → Text → Request
  unban_user : Text → Text → Request
  set_room_name : Text → Text → Request

pub record Reply : Type 0 where
  pub ok : Bool
  pub message : Text

-- What one command does: a feedback row, a job on the thread pool, a call of another component, or
-- undefined behaviour, the call through a null pointer.
pub data Effect : Type 0 where
  system_row : Text → Effect
  enqueue : Request → Effect
  clear_timeline : Effect
  log_out : Effect
  nothing : Effect
  null_call : Effect

-- An entry of the table as the constructor writes it: three texts and no function.
abbrev entry : Text → Text → Text → Command
entry name args_help description = record {
  name = name;
  args_help = args_help;
  description = description;
  run = none;
}

-- The table that the constructor fills in.
abbrev pub commands : List Command
commands =
    entry (text "help") (text "") (text "List commands")
    ∷ entry (text "invite") (text "<user-id>") (text "Invite a user to this room")
    ∷ entry (text "join") (text "<room-id-or-alias>") (text "Join a room")
    ∷ entry (text "leave") (text "") (text "Leave this room")
    ∷ entry (text "kick") (text "<user-id> [reason]") (text "Kick a user from this room")
    ∷ entry (text "ban") (text "<user-id> [reason]") (text "Ban a user from this room")
    ∷ entry (text "unban") (text "<user-id>") (text "Unban a user in this room")
    ∷ entry (text "roomname") (text "<name>") (text "Rename this room")
    ∷ entry (text "clear") (text "") (text "Clear the timeline")
    ∷ entry (text "logout") (text "") (text "Log out")
    ∷ []

open_first : Effect
open_first = system_row (text "Open a room first.")

-- `client` says whether a client is set.
unfoldable pub run_invite : Bool → Text → Text → Effect
unfolding open_first
run_invite client room args =
    let user = (split_blank args).0 in
    if not client || is_empty room
    then open_first
    else if is_empty user
    then system_row (text "Usage: /invite <user-id>")
    else enqueue (invite_user room (if starts_with b'@' user then user else b'@' ∷ user))

pub run_join : Bool → Text → Text → Effect
run_join client room args =
    if not client || is_empty args
    then system_row (text "Usage: /join <room-id-or-alias>")
    else enqueue (join_room args)

pub run_leave : Bool → Text → Text → Effect
unfolding open_first
run_leave client room args =
    if not client || is_empty room then open_first else enqueue (leave_room room)

pub run_kick : Bool → Text → Text → Effect
unfolding open_first
run_kick client room args =
    let parts = split_blank args in
    if not client || is_empty room
    then open_first
    else if is_empty parts.0
    then system_row (text "Usage: /kick <user-id> [reason]")
    else enqueue (kick_user room parts.0 parts.1)

pub run_ban : Bool → Text → Text → Effect
unfolding open_first
run_ban client room args =
    let parts = split_blank args in
    if not client || is_empty room
    then open_first
    else if is_empty parts.0
    then system_row (text "Usage: /ban <user-id> [reason]")
    else enqueue (ban_user room parts.0 parts.1)

pub run_unban : Bool → Text → Text → Effect
unfolding open_first
run_unban client room args =
    if not client || is_empty room
    then open_first
    else if is_empty args
    then system_row (text "Usage: /unban <user-id>")
    else enqueue (unban_user room args)

pub run_roomname : Bool → Text → Text → Effect
unfolding open_first
run_roomname client room args =
    if not client || is_empty room
    then open_first
    else if is_empty args
    then system_row (text "Usage: /roomname <name>")
    else enqueue (set_room_name room args)

pub run_clear : Text → Text → Effect
run_clear room args = clear_timeline

-- `auth` says whether an `AuthHandler` is set.
pub run_logout : Bool → Text → Text → Effect
run_logout auth room args = if auth then log_out else nothing

-- The call through the member pointer.
unfoldable pub run_handler : Bool → Bool → Option Handler → Text → Text → Effect
unfolding run_invite run_join run_leave run_kick run_ban run_unban run_roomname run_clear run_logout
run_handler client auth none room args = null_call
run_handler client auth (some invite) room args = run_invite client room args
run_handler client auth (some join) room args = run_join client room args
run_handler client auth (some leave) room args = run_leave client room args
run_handler client auth (some kick) room args = run_kick client room args
run_handler client auth (some ban) room args = run_ban client room args
run_handler client auth (some unban) room args = run_unban client room args
run_handler client auth (some roomname) room args = run_roomname client room args
run_handler client auth (some clear) room args = run_clear room args
run_handler client auth (some logout) room args = run_logout auth room args

-- The row that the reply to a request leaves in the timeline.
pub reply_row : Request → Reply → Text
reply_row (invite_user room user) r =
    if r.ok then text "Invited " ++ user else text "❌ Invite failed: " ++ r.message
reply_row (join_room target) r =
    if r.ok then text "Joined the room." else text "❌ Join failed: " ++ r.message
reply_row (leave_room room) r = if r.ok then text "Left the room." else text "❌ Leave failed."
reply_row (kick_user room user reason) r =
    if r.ok then text "Kicked " ++ user else text "❌ Kick failed: " ++ r.message
reply_row (ban_user room user reason) r =
    if r.ok then text "Banned " ++ user else text "❌ Ban failed: " ++ r.message
reply_row (unban_user room user) r = if r.ok then text "Unbanned." else text "❌ Unban failed."
reply_row (set_room_name room name) r =
    if r.ok then text "Room renamed." else text "❌ Rename failed."

-- One line of the help text for each entry.
pub help_lines : List Command → Text
help_lines [] = []
help_lines (c ∷ cs) =
    (text "\n/"
      ++ c.name
      ++ (if is_empty c.args_help then [] else text " " ++ c.args_help)
      ++ text " — "
      ++ c.description)
    ++ help_lines cs

unfoldable pub find_command : Text → List Command → Option Command
find_command cmd [] = none
find_command cmd (c ∷ cs) = if c.name == cmd then some c else find_command cmd cs

-- `handleCommand` over a table. `room` is the id that the provider gives, empty without one.
pub handle_with : List Command → Bool → Bool → Text → Text → Text → Effect
handle_with table client auth room cmd args =
    if cmd == text "help"
    then system_row (text "Commands:" ++ help_lines table)
    else elim (find_command cmd table) [
      | none ↦ system_row (text "Unknown command: /" ++ cmd ++ text " (try /help)")
      | some c ↦ run_handler client auth c.run room args
    ]

pub handle_command : Bool → Bool → Text → Text → Text → Effect
unfolding handle_with
handle_command = handle_with commands
