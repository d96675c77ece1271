-- ===== src/Toolbar/Reset.antt =====
-- When the reset of src/ui/handlers/toolbar_handler.cpp touches the keys of the device.
use progressive_desktop.Base.{
  ◌≡◌, Bool, false, Option, none, some, List, [], ◌∷◌, arith, Text, text, is_empty, ◌==◌, not, ◌&&◌,
  ◌||◌, if◌then◌else◌, eqb,
}
use progressive_desktop.Engine.{ApiResult}
use progressive_desktop.Toolbar.{
  delete_device, Action, call, status, inform, warn, reset_identity, set_account_shared,
  clear_persisted_outbound_sessions, upload_device_keys, force_re_login, World, Asked,
  proceed_with_reset, device_deleted, on_reset_device_keys,
}

-- What concerns the keys, the words left out.
abbrev pub key_actions : List Action → List Action
key_actions [] = []
key_actions (status t ∷ as') = key_actions as'
key_actions (inform t ∷ as') = key_actions as'
key_actions (warn t ∷ as') = key_actions as'
key_actions (x ∷ as') = x ∷ key_actions as'

-- The server took the password for wrong, or the session for expired.
abbrev pub refused : ApiResult → Bool
refused r = eqb r.http_status 401 || eqb r.http_status 403 || r.code == text "M_FORBIDDEN"

abbrev pub expired : ApiResult → Bool
expired r = eqb r.http_status 401 && r.code == text "M_UNKNOWN_TOKEN"

-- The user typed a password and confirmed the reset.
abbrev pub typed : Asked → Option Text
typed a = elim a.password as (λ x. Option Text) [
  | none ↦ none
  | some password ↦
      if a.has_client && a.has_sync && a.confirmed && not (is_empty password)
      then some password
      else none
]

abbrev pub permitted : World → Asked → ApiResult → Bool
permitted w a r = w.alive && a.sync_later && (r.ok || (not (refused r) && a.insist))

module _ (w : World) (a : Asked) where
  -- The identity of the device is made anew only behind the server's answer about the password: where it
  -- accepted it, or could not tell and the user insisted, and never where it refused it. Then the
  -- account counts as not shared, the outbound sessions of the old identity are dropped, and only
  -- after that the keys are uploaded. An expired session leads to a new login instead, and with no
  -- password or no confirmation nothing happens at all.
  pub on_reset_device_keys-keys :
      key_actions (on_reset_device_keys w a) ≡ elim (typed a) as (λ x. List Action) [
        | none ↦ []
        | some password ↦
            let r = w.reply (delete_device a.device_id password) in
            call (delete_device a.device_id password)
            ∷ (if permitted w a r
                then reset_identity
                  ∷ set_account_shared false
                  ∷ clear_persisted_outbound_sessions
                  ∷ upload_device_keys
                  ∷ []
                else if w.alive && not r.ok && expired r && a.auth
                then force_re_login ∷ []
                else [])
      ]
  unfolding on_reset_device_keys device_deleted proceed_with_reset
  on_reset_device_keys-keys = ground arith
