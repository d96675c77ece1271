-- ===== src/Verify.antt =====
-- src/ui/handlers/verification_handler.cpp and verification_handler.hpp: the banner for an incoming
-- verification request and the dialog that compares emojis. The manager of the transactions and the
-- controller that sends are the engine's: the manager is the list of its active transactions, what
-- the controller is asked for is a list of requests, and the emojis of a transaction are a parameter.
pub mod Steps
pub mod Answers
use progressive_desktop.Base.{
  ℕ, Bool, true, false, Option, none, some, List, [], ◌∷◌, ◌++◌, Text, text, is_empty, is_some, not,
  ◌&&◌, ◌||◌, if◌then◌else◌,
}

-- `VerificationState`, with one name for the states that the handler ignores.
pub data VerificationState : Type 0 where
  request_received key_received done cancelled other : VerificationState

pub data CancelCode : Type 0 where
  user sas_mismatch : CancelCode

pub record Transaction : Type 0 where
  pub transaction_id : Text
  pub other_user_id : Text
  pub state : VerificationState

-- What the handler asks of the controller.
pub data Request : Type 0 where
  accept_incoming : Text → Request
  cancel_verification : Text → CancelCode → Request
  confirm_match : Text → Request
  start_self_verification : Text → Request
  start_user_verification : Text → Text → Request

pub record Dialog : Type 0 where
  pub txn_id : Text
  pub other_user : Text
  pub emojis : List Text

pub record Handler : Type 0 where
  pub client : Bool
  pub vm : Option (List Transaction)
  pub banner_txn_id : Text
  pub banner_label : Text
  pub banner_shown : Bool
  pub dialog : Option Dialog
  pub dialog_txn_id : Text
  pub sent : List Request

unfoldable pub new : Handler
new = record {
  client = false;
  vm = none;
  banner_txn_id = [];
  banner_label = [];
  banner_shown = false;
  dialog = none;
  dialog_txn_id = [];
  sent = [];
}

-- The active transactions, none without a manager.
unfoldable pub active : Handler → List Transaction
active h = elim h.vm [ none ↦ [] | some ts ↦ ts ]

unfoldable pub send : Request → Handler → Handler
send r h = record h { sent = h.sent ++ r ∷ [] }

unfoldable pub set_client : Bool → Handler → Handler
set_client c h = record h { client = c }

-- A null engine changes nothing.
unfoldable pub set_sync_engine : Option (List Transaction) → Handler → Handler
set_sync_engine none h = h
set_sync_engine (some ts) h = record h { vm = some ts }

unfoldable pub start_self : Text → Handler → Handler
unfolding send
start_self device h =
    if h.client && is_some h.vm then send (start_self_verification device) h else h

unfoldable pub start_user : Text → Text → Handler → Handler
unfolding send
start_user who device h =
    if h.client && is_some h.vm then send (start_user_verification who device) h else h

unfoldable pub show_banner : Text → Text → Handler → Handler
show_banner txn from h = record h {
  banner_txn_id = txn;
  banner_label = from ++ text " wants to verify your device";
  banner_shown = true;
}

unfoldable pub hide_banner : Handler → Handler
hide_banner h = record h { banner_txn_id = []; banner_shown = false }

-- The buttons of the banner.
unfoldable pub accept_clicked : Handler → Handler
unfolding send hide_banner
accept_clicked h =
    if is_empty h.banner_txn_id then h else hide_banner (send (accept_incoming h.banner_txn_id) h)

unfoldable pub reject_clicked : Handler → Handler
unfolding send hide_banner
reject_clicked h =
    if is_empty h.banner_txn_id
    then h
    else hide_banner (send (cancel_verification h.banner_txn_id user) h)

unfoldable pub close_dialog : Handler → Handler
close_dialog h = record h { dialog = none; dialog_txn_id = [] }

-- The window's own button: the dialog deletes itself and emits none of its signals.
unfoldable pub dialog_deleted : Handler → Handler
dialog_deleted h = record h { dialog = none }

-- The three signals of the dialog.
unfoldable pub matched : Handler → Handler
unfolding send
matched h = if is_empty h.dialog_txn_id then h else send (confirm_match h.dialog_txn_id) h

unfoldable pub mismatched : Handler → Handler
unfolding send close_dialog
mismatched h = close_dialog (
    if is_empty h.dialog_txn_id
    then h
    else send (cancel_verification h.dialog_txn_id sas_mismatch) h)

unfoldable pub dialog_cancelled : Handler → Handler
unfolding send close_dialog
dialog_cancelled h =
    close_dialog
      (if is_empty h.dialog_txn_id then h else send (cancel_verification h.dialog_txn_id user) h)

abbrev pub at_key_received : VerificationState → Bool
at_key_received key_received = true
at_key_received _ = false

-- The first of the transactions that waits for its emojis to be compared.
unfoldable pub first_stalled : List Transaction → Option Transaction
first_stalled [] = none
first_stalled (t ∷ ts) = if at_key_received t.state then some t else first_stalled ts

module _ (compute_emojis : Transaction → List Text) where
  unfoldable pub show_emoji_dialog : Transaction → Handler → Handler
  show_emoji_dialog t h =
      if not (is_some h.vm) || is_some h.dialog || is_empty (compute_emojis t)
      then h
      else record h {
        dialog_txn_id = t.transaction_id;
        dialog = some (record {
          txn_id = t.transaction_id;
          other_user = t.other_user_id;
          emojis = compute_emojis t;
        });
      }

  unfoldable pub resume_stalled_dialog : Handler → Handler
  unfolding show_emoji_dialog first_stalled active
  resume_stalled_dialog h =
      if not (is_some h.vm) || is_some h.dialog
      then h
      else elim (first_stalled (active h)) [ none ↦ h | some t ↦ show_emoji_dialog t h ]

  unfoldable pub on_transaction_state_changed : Transaction → Handler → Handler
  unfolding show_banner hide_banner show_emoji_dialog close_dialog resume_stalled_dialog
  on_transaction_state_changed t h = elim t.state [
    | request_received ↦ show_banner t.transaction_id t.other_user_id h
    | key_received ↦
        if is_some h.vm && not (is_empty (compute_emojis t)) then show_emoji_dialog t h else h
    | done ↦ resume_stalled_dialog (hide_banner (close_dialog h))
    | cancelled ↦ resume_stalled_dialog (hide_banner (close_dialog h))
    | other ↦ h
  ]

  -- The handler of the manager's callback: a null transaction has an empty id, and the transaction is
  -- looked up again when the event is delivered.
  unfoldable pub state_changed : Text → Option Transaction → Handler → Handler
  unfolding on_transaction_state_changed
  state_changed txn found h =
      if is_empty txn
      then h
      else elim found [ none ↦ h | some t ↦ on_transaction_state_changed t h ]
