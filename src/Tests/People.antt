-- ===== src/Tests/People.antt =====
-- Examples for verification, accounts, the room switcher and threads.
use progressive_desktop.Base.{◌≡◌, refl, true, false, none, some, List, [], ◌∷◌, Text, text, ◌==◌}
use progressive_desktop.Base.Int.{pos}
use progressive_desktop.Tests.{blank, letter, unary_ts}
use progressive_desktop.Verify
use progressive_desktop.Verify.Steps.{Event, IsConsistent, run, run-IsConsistent}
use progressive_desktop.Accounts.{Account, Crypto, App, switch_account}
use progressive_desktop.Accounts.Switching.{IsSameFor, switch_account_isolates}
use progressive_desktop.Switcher
use progressive_desktop.Switcher.Selection
use progressive_desktop.Threads

abbrev emojis : Verify.Transaction → List Text
emojis t = letter 7 ∷ []

abbrev request : Verify.Transaction
request = record {
  transaction_id = letter 1;
  other_user_id = letter 2;
  state = Verify.VerificationState.request_received;
}

abbrev finished : Verify.Transaction
finished = record {
  transaction_id = letter 3;
  other_user_id = letter 2;
  state = Verify.VerificationState.done;
}

abbrev handler : Verify.Handler
handler = record {
  client = true;
  vm = some (request ∷ []);
  banner_txn_id = letter 1;
  banner_label = [];
  banner_shown = true;
  dialog = none;
  dialog_txn_id = [];
  sent = [];
}

run-IsConsistent_example :
    IsConsistent (run emojis (Event.changed request ∷ Event.accepted ∷ []) handler)
run-IsConsistent_example =
    run-IsConsistent emojis (Event.changed request ∷ Event.accepted ∷ []) handler (refl, (tt, tt))
      (refl, λ d e. cc)

-- A decryptor that is a text, and pickles as that text.
abbrev crypto : Crypto Text
crypto = record {
  is_initialized = λ d. true;
  pickle_megolm = λ k d. d;
  pickle_olm = λ k d. d;
  pickle_outbound = λ k d. d;
  pickle_account = λ k d. d;
  account_shared = λ d. true;
  uploaded_key_count = λ d. 0;
  init = λ d. [];
  init_saved = λ a d. a.pickle;
  unpickle_megolm = λ k p d. p;
  unpickle_olm = λ k p d. p;
  unpickle_outbound = λ k p d. p;
}

abbrev alice : Account
alice = record { user_id = letter 1; device_id = letter 3 }

abbrev bob : Account
bob = record { user_id = letter 2; device_id = letter 3 }

abbrev app : App Text
app = record {
  account = alice;
  listed = alice ∷ bob ∷ [];
  sessions = record { megolm = []; olm = []; outbound = []; accounts = [] };
  decryptor = some (letter 9);
  running = true;
  device_keys_uploaded = true;
  rooms = letter 4 ∷ [];
  timeline = letter 5 ∷ [];
  member_avatars = [];
  current_room = letter 4;
  timeline_shown = true;
  placeholder_shown = false;
  composer_shown = true;
  combo_enabled = true;
  combo_items = [];
  combo_index = 0;
  my_user_id = letter 1;
}

switch_account_isolates_example :
    let b = switch_account crypto (some 1) app in
    (b.account ≡ bob)
    × (b.my_user_id ≡ letter 2)
    × (b.running ≡ true)
    × (b.rooms ≡ [])
    × (b.timeline ≡ [])
    × (b.member_avatars ≡ [])
    × (b.current_room ≡ [])
    × (b.composer_shown ≡ false)
    × IsSameFor (letter 8) b.sessions app.sessions
unfolding text ◌==◌
switch_account_isolates_example = switch_account_isolates crypto app 1 bob (letter 8) refl refl refl

abbrev open_room : Switcher.Room
open_room = record { name = letter 5; room_id = letter 6; is_invite = false }

abbrev dialog : Switcher.Dialog
dialog = record { items = []; current_row = none; selected = []; is_open = true }

abbrev IsSix : Text → Type 0
IsSix id = id ≡ letter 6

run-IsSound_example :
    Selection.IsSound
      (λ t. t)
      (λ t. t)
      (λ a b. true)
      (open_room ∷ [])
      IsSix
      (Selection.run
        (λ t. t)
        (λ t. t)
        (λ a b. true)
        (open_room ∷ [])
        (Selection.Event.typed [] ∷ Selection.Event.pressed Switcher.Key.return ∷ [])
        dialog)
run-IsSound_example =
    Selection.run-IsSound (λ t. t) (λ t. t) (λ a b. true) (open_room ∷ []) IsSix
      (Selection.Event.typed [] ∷ Selection.Event.pressed Switcher.Key.return ∷ []) dialog
      ((λ e. refl), tt) (refl, tt, tt)

abbrev thread : Threads.Thread
thread = record { current_root = []; banner_shown = false; status = []; timeline = blank ∷ [] }

abbrev world : Threads.World
world = record {
  blank = blank;
  user_id = letter 1;
  now = pos 1;
  stamp = unary_ts;
  decryptor_ready = true;
  session = letter 2;
  encrypt = λ t. letter 3;
  key_shared = false;
  share_succeeds = true;
  reply = record { ok = true; event_id = letter 4; message = [] };
  alive = true;
}
