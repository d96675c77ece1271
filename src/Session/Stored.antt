-- ===== src/Session/Stored.antt =====
-- The account that the client uses and the one that is stored, over the steps of src/ui/handlers/session_bootstrap.cpp
-- and src/ui/dialogs/login_dialog.cpp.
use progressive_desktop.Base.{◌≡◌, ◌≢◌, Bool, true, false, List, [], ◌∷◌, arith, Text, count_if}
use progressive_desktop.Session.{
  AccountInfo, Step, set_account, persist_session, start_sync, World, has_device, with_device,
  with_tokens, bootstrap, login_name, on_login_clicked,
}

-- What steps do to the pair: a step that is not listed changes neither.
abbrev pub replay : List Step → AccountInfo × AccountInfo → AccountInfo × AccountInfo
replay [] s = s
replay (set_account a ∷ steps) (used, saved) = replay steps (a, saved)
replay (persist_session ∷ steps) (used, saved) = replay steps (used, used)
replay (x ∷ steps) s = replay steps s

abbrev pub is_start : Step → Bool
is_start start_sync = true
is_start _ = false

module _ (w : World) where
  -- The start of a session leaves the client with the account it computes and the store with the same one,
  -- if the store was not behind before: a new device id and refreshed tokens are stored at once. The
  -- device id is then one of its own, the user and the homeserver stay, and the sync starts once.
  pub bootstrap_stores :
      (a : AccountInfo)
      → has_device w.uuid ≡ true
      → let (b, steps) = bootstrap w true a in
        (replay steps (a, a) ≡ (b, b))
        × (has_device b.device_id ≡ true)
        × (b.user_id ≡ a.user_id)
        × (b.homeserver_url ≡ a.homeserver_url)
        × (count_if is_start steps ≡ 1)
  unfolding bootstrap with_device with_tokens
  bootstrap_stores a u = ground arith

  -- A login that the new homeserver refuses leaves the client with that homeserver and the access token of the
  -- old one, which the client has had before; the store keeps the old account.
  pub on_login_clicked_moves :
      (a : AccountInfo) (server user pass : Text)
      → w.trimmed server ≢ []
      → w.trimmed user ≢ []
      → pass ≢ []
      → (w.discover (w.trimmed server)).ok ≡ true
      → ((device : Text) → (w.login (login_name w (w.trimmed user)) pass device).0.ok ≡ false)
      → replay (on_login_clicked w a server user pass) (a, a)
        ≡ (record a { homeserver_url = (w.discover (w.trimmed server)).content }, a)
  unfolding on_login_clicked
  on_login_clicked_moves a server user pass s u p d r = ground (arith, r a.device_id, r w.uuid)
