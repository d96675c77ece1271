-- ===== src/Toolbar.antt =====
-- src/ui/handlers/toolbar_handler.cpp: new chats, joining by id or link, the reset of the device's keys, the
-- log of a chat. A run of a handler with its dialogs, its pool job and the callback is a list of actions.
pub mod Links
pub mod Reset
use progressive_desktop.Base.{
  ℕ, suc, ◌+◌, Bool, true, false, Option, none, some, List, [], ◌∷◌, ◌++◌, Text, text, is_empty,
  ◌==◌, not, ◌&&◌, ◌||◌, if◌then◌else◌, drop, eqb, starts_with,
}
use progressive_desktop.Engine.{ApiResult}
use progressive_desktop.History.{find}

pub data Call : Type 0 where
  start_direct_message : Text → Bool → Call
  join_room : Text → Call
  delete_device : Text → Text → Call

pub data Action : Type 0 where
  call : Call → Action
  status : Text → Action
  inform : Text → Action
  warn : Text → Action
  reset_identity : Action
  set_account_shared : Bool → Action
  clear_persisted_outbound_sessions : Action
  upload_device_keys : Action
  force_re_login : Action
  start_log : Text → Text → Action
  stop_log : Action

-- `alive` says that the window is there when a reply comes.
pub record World : Type 0 where
  pub logged_in : Bool
  pub trimmed : Text → Text
  pub reply : Call → ApiResult
  pub alive : Bool
  pub decimal : ℕ → Text

module _ (w : World) where
  unfoldable pub with_at : Text → Text
  with_at id = if starts_with b'@' id then id else b'@' ∷ id

  -- `onNewChat`: the id that was typed, if the dialog was accepted, and the answer about encryption.
  unfoldable pub on_new_chat : Option Text → Bool → List Action
  unfolding with_at
  on_new_chat none encrypt = []
  on_new_chat (some typed) encrypt =
      let id = with_at (w.trimmed typed) in
      let start = start_direct_message id encrypt in
      let r = w.reply start in
      if not w.logged_in || is_empty (w.trimmed typed)
      then []
      else status (text "Creating direct chat...")
        ∷ call start
        ∷ (if not w.alive
            then []
            else if r.ok
            then status (text "Created room: " ++ r.content) ∷ []
            else warn (text "Failed: " ++ r.message) ∷ [])

  -- `indexOf` and `mid`: the text from two places behind the first `mark` on.
  unfoldable pub behind_mark : Text → Text → Text
  behind_mark mark input = elim (find mark input) [ none ↦ input | some i ↦ drop (i + 2) input ]

  -- The id or alias in what was typed, which may be a link.
  unfoldable pub join_target : Text → Text
  unfolding behind_mark
  join_target input = w.trimmed (behind_mark (text "#/!") (behind_mark (text "#/#") input))

  unfoldable pub on_join_room : Option Text → List Action
  unfolding join_target
  on_join_room none = []
  on_join_room (some typed) =
      let join = join_room (join_target typed) in
      if not w.logged_in || is_empty (w.trimmed typed)
      then []
      else status (text "Joining...")
        ∷ call join
        ∷ (if w.alive && (w.reply join).ok
            then inform (text "Successfully joined room.") ∷ []
            else [])

-- `onResetDeviceKeys`: what the dialogs answer. `sync_later` and `auth` say that the sync engine is there when
-- the reset goes on, and the handler of logins; `insist` answers the last question.
pub record Asked : Type 0 where
  pub has_client : Bool
  pub has_sync : Bool
  pub confirmed : Bool
  pub password : Option Text
  pub device_id : Text
  pub sync_later : Bool
  pub auth : Bool
  pub insist : Bool

module _ (w : World) (a : Asked) where
  -- `proceedWithReset`.
  unfoldable pub proceed_with_reset : Text → List Action
  proceed_with_reset note =
      if not a.sync_later
      then []
      else status (text "Regenerating identity...")
        ∷ reset_identity
        ∷ set_account_shared false
        ∷ clear_persisted_outbound_sessions
        ∷ upload_device_keys
        ∷ (if w.alive
            then status (text "Reset complete.")
              ∷ inform (
                  note
                  ++ text
                      "Identity regenerated and device keys re-uploaded.\nOther clients must re-verify; peers re-establish sessions automatically on their next message.")
              ∷ []
            else [])

  unfoldable pub device_deleted : ApiResult → List Action
  unfolding proceed_with_reset
  device_deleted r =
      let http = w.decimal r.http_status in
      if not w.alive
      then []
      else if r.ok
      then proceed_with_reset (text "Device deleted. ")
      else if eqb r.http_status 401 && r.code == text "M_UNKNOWN_TOKEN"
      then status (text "Session expired — logging in again...")
        ∷ (if a.auth then force_re_login ∷ [] else [])
      else if eqb r.http_status 401 || eqb r.http_status 403 || r.code == text "M_FORBIDDEN"
      then warn
          (text "Wrong password — the device was NOT deleted and the identity was NOT regenerated.")
        ∷ []
      else if a.insist
      then proceed_with_reset (
          text "Password could not be verified (HTTP "
          ++ http
          ++ text ") — the identity was regenerated anyway. ")
      else []

  unfoldable pub on_reset_device_keys : List Action
  unfolding device_deleted
  on_reset_device_keys = elim a.password as (λ x. List Action) [
    | none ↦ []
    | some password ↦
        if not a.has_client || not a.has_sync || not a.confirmed || is_empty password
        then []
        else call (delete_device a.device_id password)
          ∷ device_deleted (w.reply (delete_device a.device_id password))
  ]

-- The log of the open room.
pub record Log : Type 0 where
  pub active : Bool
  pub checked : Bool
  pub label : Text

-- `onToggleChatLog`: `listed` is the name that the list has for the room; `starts` says whether the file could be
-- made.
unfoldable pub log_name : Text → Option Text → Text
log_name room listed = elim listed as (λ x. Text) [
  | none ↦ room
  | some name ↦ if not (is_empty name) && not (name == room) then name else room
]

unfoldable pub on_toggle_chat_log : Text → Option Text → Bool → Log → Log × List Action
unfolding log_name
on_toggle_chat_log room listed starts l =
    if is_empty room
    then (l, [])
    else if l.active
    then (
      record { active = false; checked = false; label = text " Save" },
      stop_log ∷ status (text "Chat log stopped.") ∷ [],
    )
    else if starts
    then (
      record { active = true; checked = true; label = text " Saving" },
      start_log room (log_name room listed) ∷ status (text "Chat log started.") ∷ [],
    )
    else (
      l,
      start_log room (log_name room listed) ∷ status (text "Failed to create log file.") ∷ [],
    )
