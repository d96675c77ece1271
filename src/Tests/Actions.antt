-- ===== src/Tests/Actions.antt =====
-- Examples for what a user asks for: the menu of a message, the reset of the keys, the start of a session and the pages of
-- the dialogs.
use progressive_desktop.Base.{
  ◌≡◌, refl, true, false, Option, none, some, List, [], ◌∷◌, arith, Text, text, ◌==◌, is_empty, not,
  length, count_if,
}
use progressive_desktop.Engine.{DisplayedEvent, ApiResult}
use progressive_desktop.Tests.{blank, letter, unary, unary_ts}
use progressive_desktop.Actions
use progressive_desktop.Actions.Menu.{Answers}
use progressive_desktop.Toolbar
use progressive_desktop.Toolbar.Reset.{key_actions, on_reset_device_keys-keys}
use progressive_desktop.Session
use progressive_desktop.Session.Stored.{replay, is_start, bootstrap_stores}
use progressive_desktop.Directory.{split_objects}
use progressive_desktop.Directory.Split.{array, objects, split_objects_total, split_objects-array}
use progressive_desktop.ThreadsDialog
use progressive_desktop.ThreadsDialog.Pages.{ids, threads_loaded-ids}

abbrev accepted : ApiResult
accepted = record { ok = true; http_status = 200; code = []; message = []; content = letter 5 }

abbrev world : Actions.World
world = record {
  user_id = letter 1;
  ready = true;
  session = letter 2;
  encrypt = λ inner. letter 3;
  key_shared = false;
  reply = λ c. accepted;
  alive = true;
  trimmed = λ t. t;
}

-- One's own message, which is edited.
abbrev own : Option DisplayedEvent
own = some (record blank { event_id = letter 4; sender_id = letter 1; body = letter 97 })

abbrev answers : Answers
answers = record {
  edited = some (letter 98);
  delete_confirmed = true;
  save_path = [];
  can_write = true;
  has_decryptor = true;
  session_id = λ c. [];
  sender_key = λ c. [];
  device_id = λ c. [];
}

abbrev toolbar : Toolbar.World
toolbar = record {
  logged_in = true;
  trimmed = λ t. t;
  reply = λ c. accepted;
  alive = true;
  decimal = unary;
}

abbrev asked : Toolbar.Asked
asked = record {
  has_client = true;
  has_sync = true;
  confirmed = true;
  password = some (letter 112);
  device_id = letter 6;
  sync_later = true;
  auth = true;
  insist = false;
}

on_reset_device_keys-keys_example :
    key_actions (Toolbar.on_reset_device_keys toolbar asked)
    ≡ Toolbar.call (Toolbar.delete_device (letter 6) (letter 112))
      ∷ Toolbar.reset_identity
      ∷ Toolbar.set_account_shared false
      ∷ Toolbar.clear_persisted_outbound_sessions
      ∷ Toolbar.upload_device_keys
      ∷ []
on_reset_device_keys-keys_example = on_reset_device_keys-keys toolbar asked

abbrev account : Session.AccountInfo
account = record {
  user_id = letter 1;
  device_id = [];
  homeserver_url = letter 2;
  access_token = letter 3;
  refresh_token = letter 4;
}

-- The tokens have expired, and the device has no id yet.
abbrev session_world : Session.World
session_world = record {
  uuid = letter 7;
  keys_published = true;
  refresh =
      λ token. record { http_status = 200; access_token = letter 8; refresh_token = letter 9 };
  discover = λ server. accepted;
  login = λ user pass device. (accepted, account);
  register = λ user server pass token. (accepted, account);
  has_store = true;
  store_open = true;
  trimmed = λ t. t;
}

bootstrap_stores_example :
    let (b, steps) = Session.bootstrap session_world true account in
    (replay steps (account, account) ≡ (b, b))
    × (Session.has_device b.device_id ≡ true)
    × (b.user_id ≡ letter 1)
    × (b.homeserver_url ≡ letter 2)
    × (count_if is_start steps ≡ 1)
unfolding ◌==◌ text
bootstrap_stores_example = bootstrap_stores session_world account refl

abbrev inners : List Text
inners = letter 97 ∷ letter 98 ∷ []

split_objects_total_example :
    (found : List Text) × (split_objects (length (array inners)) (array inners) ≡ some found)
    × (split_objects 20 (array inners) ≡ some found)
split_objects_total_example = split_objects_total 20 (array inners) (omega arith)

split_objects-array_example :
    split_objects (length (array inners)) (array inners) ≡ some (objects inners)
split_objects-array_example = split_objects-array inners (
  (((λ e. omega (arith, e)), (λ e. omega (arith, e))), tt),
  ((((λ e. omega (arith, e)), (λ e. omega (arith, e))), tt), tt),
)

abbrev threads_world : ThreadsDialog.World
threads_world = record {
  local_row = λ id. none;
  remote = λ id. record { sender = none; body = none; ts = none };
  decimal = unary;
  stamp = unary_ts;
}

abbrev dialog : ThreadsDialog.Dialog
dialog = record { lines = []; next_batch = []; more_shown = false; status = [] }

abbrev threads : List ThreadsDialog.Thread
threads =
    record { event_id = some (letter 1); replies = 2; participated = true }
    ∷ record { event_id = none; replies = 0; participated = false }
    ∷ []

threads_loaded-ids_example :
    let d =
      ThreadsDialog.threads_loaded threads_world
        (ThreadsDialog.page (some threads) (some (letter 5)))
        dialog in
    (ids d.lines ≡ letter 1 ∷ [])
    × (d.next_batch ≡ letter 5)
    × (d.more_shown ≡ not (is_empty d.next_batch))
threads_loaded-ids_example =
    threads_loaded-ids threads_world threads (some (letter 5)) dialog (omega arith)
