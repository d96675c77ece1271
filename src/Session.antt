-- ===== src/Session.antt =====
-- The start and the end of a session: src/ui/handlers/session_bootstrap.cpp, src/ui/handlers/auth_handler.cpp and the
-- handlers of src/ui/dialogs/login_dialog.cpp. What a handler does to the client, the store and the sync engine is a
-- list of steps; the replies of the server are arguments.
pub mod Stored
use progressive_desktop.Base.{
  ℕ, suc, ◌-◌, Bool, true, false, Option, none, some, List, [], ◌∷◌, ◌++◌, Text, text, is_empty,
  ◌==◌, not, ◌&&◌, ◌||◌, if◌then◌else◌, take, drop, eqb, index_of, starts_with,
}
use progressive_desktop.Engine.{ApiResult}
use progressive_desktop.History.{find}

pub record AccountInfo : Type 0 where
  pub user_id : Text
  pub device_id : Text
  pub homeserver_url : Text
  pub access_token : Text
  pub refresh_token : Text

pub data Step : Type 0 where
  set_account : AccountInfo → Step
  persist_session : Step
  set_crypto_context : AccountInfo → Step
  refresh_access_token : Text → Step
  discover_homeserver : Text → Step
  login_with_password : Text → Text → Text → Step
  register_account : Text → Text → Text → Text → Step
  initialize_e2ee : Step
  init_notifier : Step
  start_sync : Step
  stop_sync : Step
  upload_device_keys : Step
  persist_crypto : Step
  client_logout : Step
  clear_account : Text → Step
  open_store : Step
  open_browser : Text → Step
  login_dialog : Step
  logged_in : Step
  logged_out : Step
  accept : Step
  status : Text → Step

-- The reply to a refresh.
pub record Tokens : Type 0 where
  pub http_status : ℕ
  pub access_token : Text
  pub refresh_token : Text

-- `keys_published` is what the initialisation of the encryption says; `uuid` is `generateUUID`.
pub record World : Type 0 where
  pub uuid : Text
  pub keys_published : Bool
  pub refresh : Text → Tokens
  pub discover : Text → ApiResult
  pub login : Text → Text → Text → ApiResult × AccountInfo
  pub register : Text → Text → Text → Text → ApiResult × AccountInfo
  pub has_store : Bool
  pub store_open : Bool
  pub trimmed : Text → Text

-- A device id of its own: none, and the one that all installations had, are replaced.
abbrev pub has_device : Text → Bool
has_device id = not (is_empty id || id == text "PROGRESSIVE_DESKTOP")

module _ (w : World) where
  unfoldable pub with_device : AccountInfo → AccountInfo × List Step
  with_device a =
      if has_device a.device_id
      then (a, [])
      else let a' = record a { device_id = w.uuid } in (a', set_account a' ∷ persist_session ∷ [])

  -- The tokens are refreshed before the first sync, where there is a token for it.
  unfoldable pub with_tokens : AccountInfo → AccountInfo × List Step
  with_tokens a =
      let r = w.refresh a.refresh_token in
      let a' = record a {
        access_token = r.access_token;
        refresh_token = if is_empty r.refresh_token then a.refresh_token else r.refresh_token;
      } in
      if is_empty a.refresh_token
      then (a, [])
      else if eqb r.http_status 200 && not (is_empty r.access_token)
      then (
        a',
        refresh_access_token a.refresh_token
            ∷ set_account a'
            ∷ set_crypto_context a'
            ∷ persist_session
            ∷ [],
      )
      else (a, refresh_access_token a.refresh_token ∷ [])

  -- `SessionBootstrap::start`: the account that the client has in the end, and the steps.
  unfoldable pub bootstrap : Bool → AccountInfo → AccountInfo × List Step
  unfolding with_device with_tokens
  bootstrap is_logged_in a =
      let (b, device) = with_device a in
      let (c, tokens) = with_tokens b in
      if not is_logged_in then (a, []) else (
        c,
        device
            ++ (status (text "Starting sync...")
                ∷ initialize_e2ee
                ∷ status (
                    if w.keys_published
                    then text "E2EE ready. Refreshing session..."
                    else text "E2EE keys uploading...")
                ∷ [])
            ++ tokens
            ++ (status (text "Starting sync...") ∷ init_notifier ∷ start_sync ∷ [])
            ++ (if w.keys_published then upload_device_keys ∷ [] else []),
      )

  -- The name that the login wants: what stands between `@` and the colon.
  unfoldable pub login_name : Text → Text
  login_name user =
      if starts_with b'@' user
      then elim (index_of b':' user) [ none ↦ drop 1 user | some i ↦ take (i - 1) (drop 1 user) ]
      else user

  abbrev hint : Text → Text
  hint code =
      if code == text "M_FORBIDDEN"
      then text
          "\n\nM_FORBIDDEN means wrong username or password.\nCheck:\n  - Username is just 'alice' (no @, no :server)\n  - Password is correct (use Show password to verify)\n  - The account exists on this homeserver"
      else []

  unfoldable pub enter : List Step
  enter = persist_session ∷ accept ∷ []

  -- `onLoginClicked`, from the account that the client has and the three fields.
  unfoldable pub on_login_clicked : AccountInfo → Text → Text → Text → List Step
  unfolding login_name enter
  on_login_clicked current server_text user_text pass =
      let server = w.trimmed server_text in
      let user = w.trimmed user_text in
      let found = w.discover server in
      let moved = record current { homeserver_url = found.content } in
      let device = if has_device moved.device_id then moved.device_id else w.uuid in
      let (r, account) = w.login (login_name user) pass device in
      if is_empty server || is_empty user || is_empty pass
      then status (
          text
            "Fill in all fields.\nUsername is just the name (e.g. 'alice'), NOT the full Matrix ID.")
        ∷ []
      else status (text "Discovering homeserver...")
        ∷ discover_homeserver server
        ∷ (if not found.ok
            then status (
                text "Discovery failed: "
                ++ found.message
                ++ text "\nCheck the server name (e.g. 'matrix.org').")
              ∷ []
            else set_account moved
              ∷ status (text "Logging into " ++ found.content ++ text "...")
              ∷ login_with_password (login_name user) pass device
              ∷ (if r.ok
                  then (if w.has_store && not w.store_open then open_store ∷ [] else []) ++ enter
                  else status
                      (text "Login failed (" ++ r.code ++ text "): " ++ r.message ++ hint r.code)
                    ∷ []))

  unfoldable pub register_page : Text → Text
  register_page server = elim (find (text "matrix.org") server) [
    | some i ↦ text "https://app.element.io/#/register"
    | none ↦ text "https://" ++ server ++ text "/#/register"
  ]

  -- `onRegisterClicked`.
  unfoldable pub on_register_clicked : Text → Text → Text → Text → List Step
  unfolding login_name enter register_page
  on_register_clicked server_text user_text pass token_text =
      let server = w.trimmed server_text in
      let user = w.trimmed user_text in
      let token = w.trimmed token_text in
      let found = w.discover server in
      let (r, account) = w.register (login_name user) pass found.content token in
      if is_empty server
      then status (text "Enter a server name first.") ∷ []
      else if is_empty user || is_empty pass
      then status (
          text
            "Enter username and password to register.\nUsername is just the name (e.g. 'alice').")
        ∷ []
      else status (text "Discovering homeserver...")
        ∷ discover_homeserver server
        ∷ (if not found.ok
            then status (text "Discovery failed: " ++ found.message) ∷ []
            else status (text "Registering on " ++ found.content ++ text "...")
              ∷ register_account (login_name user) pass found.content token
              ∷ (if r.ok
                  then set_account account ∷ (if w.has_store then open_store ∷ [] else []) ++ enter
                  else if r.code == text "M_REGISTRATION_TOKEN_INVALID"
                  then status
                      (text "Invalid or expired registration token.\nCheck with your server admin.")
                    ∷ []
                  else if r.code == text "M_NEEDS_CAPTCHA"
                  then open_browser (register_page server)
                    ∷ status (
                        text
                          "This server requires captcha for registration.\nOpened registration page in your browser:\n"
                        ++ register_page server
                        ++ text "\nAfter registering, come back here and login.")
                    ∷ []
                  else status (text "Registration failed (" ++ r.code ++ text "): " ++ r.message)
                    ∷ []))

-- `onLoginDialogAccepted`, `forceReLogin` and `logout` of the handler of logins.
unfoldable pub on_login_dialog_accepted : Bool → List Step
on_login_dialog_accepted is_logged_in =
    if is_logged_in then status (text "Starting sync...") ∷ start_sync ∷ logged_in ∷ [] else []

unfoldable pub force_re_login : List Step
force_re_login = stop_sync ∷ status (text "Session expired — login required") ∷ login_dialog ∷ []

unfoldable pub logout : Bool → Bool → Text → List Step
logout client store user_id =
    persist_crypto ∷ stop_sync ∷ (if client then client_logout ∷ [] else [])
    ++ (if client && store then clear_account user_id ∷ [] else [])
    ++ status (text "Logged out.") ∷ logged_out ∷ []
