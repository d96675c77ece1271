-- ===== src/Verify/Steps.antt =====
-- Runs of the handler of src/ui/handlers/verification_handler.cpp: every input as an event, and what
-- holds in every state that a run reaches.
use progressive_desktop.Base.{
  ◌≡◌, refl, Bool, false, Option, none, some, List, [], ◌∷◌, Text, is_empty, is_some, not, ◌&&◌,
  ◌||◌, if◌then◌else◌, if_rule,
}
use progressive_desktop.Verify.{
  VerificationState, Transaction, Dialog, Handler, Request, CancelCode, active, send, set_client,
  set_sync_engine, start_self, start_user, show_banner, hide_banner, accept_clicked, reject_clicked,
  close_dialog, dialog_deleted, matched, mismatched, dialog_cancelled, first_stalled,
  show_emoji_dialog, resume_stalled_dialog, on_transaction_state_changed, state_changed,
}

pub data Event : Type 0 where
  client_set : Bool → Event
  engine_set : Option (List Transaction) → Event
  self_started : Text → Event
  user_started : Text → Text → Event
  accepted rejected : Event
  changed : Transaction → Event
  gone : Text → Event
  emojis_matched emojis_mismatched emojis_cancelled window_closed : Event

-- A transaction that the manager finds has the id that it was found under, which is not empty.
abbrev pub IsNamed : Event → Type 0
IsNamed (changed t) = is_empty t.transaction_id ≡ false
IsNamed _ = Unit

-- The banner is shown exactly while it has a transaction, and an open dialog belongs to the
-- transaction that the handler answers for.
abbrev pub IsConsistent : Handler → Type 0
IsConsistent h =
    (h.banner_shown ≡ not (is_empty h.banner_txn_id))
    × ((d : Dialog) → h.dialog ≡ some d → h.dialog_txn_id ≡ d.txn_id)

module _ (compute_emojis : Transaction → List Text) where
  unfoldable pub after : Event → Handler → Handler
  after (client_set c) h = set_client c h
  after (engine_set ts) h = set_sync_engine ts h
  after (self_started d) h = start_self d h
  after (user_started u d) h = start_user u d h
  after accepted h = accept_clicked h
  after rejected h = reject_clicked h
  after (changed t) h = state_changed compute_emojis t.transaction_id (some t) h
  after (gone txn) h = state_changed compute_emojis txn none h
  after emojis_matched h = matched h
  after emojis_mismatched h = mismatched h
  after emojis_cancelled h = dialog_cancelled h
  after window_closed h = dialog_deleted h

  unfoldable pub run : List Event → Handler → Handler
  unfolding after
  run [] h = h
  run (e ∷ es) h = run es (after e h)

abbrev pub AllNamed : List Event → Type 0
AllNamed [] = Unit
AllNamed (e ∷ es) = IsNamed e × AllNamed es

show_emoji_dialog-IsConsistent :
    (compute_emojis : Transaction → List Text) (t : Transaction) (h : Handler)
    → IsConsistent h
    → IsConsistent (show_emoji_dialog compute_emojis t h)
unfolding show_emoji_dialog
show_emoji_dialog-IsConsistent emojis t h (b, k) =
    if_rule IsConsistent (not (is_some h.vm) || is_some h.dialog || is_empty (emojis t))
      (λ s. (b, k)) (λ s. (b, λ d e. cc))

resume_stalled_dialog-IsConsistent :
    (compute_emojis : Transaction → List Text) (h : Handler)
    → IsConsistent h
    → IsConsistent (resume_stalled_dialog compute_emojis h)
unfolding resume_stalled_dialog
resume_stalled_dialog-IsConsistent emojis h c =
    if_rule IsConsistent (not (is_some h.vm) || is_some h.dialog) (λ s. c)
      (λ s.
        elim (first_stalled (active h))
          as (λ o. IsConsistent (elim o [ none ↦ h | some t ↦ show_emoji_dialog emojis t h ])) [
            | none ↦ c
            | some t ↦ show_emoji_dialog-IsConsistent emojis t h c
          ])

close_dialog-IsConsistent : (h : Handler) → IsConsistent h → IsConsistent (close_dialog h)
unfolding close_dialog
close_dialog-IsConsistent h c = (c.0, λ d e. cc)

closed-IsConsistent : (h : Handler) → IsConsistent h → IsConsistent (hide_banner (close_dialog h))
unfolding hide_banner close_dialog
closed-IsConsistent h (b, k) = (refl, λ d e. cc)

changed-IsConsistent :
    (compute_emojis : Transaction → List Text) (t : Transaction) (h : Handler)
    → is_empty t.transaction_id ≡ false
    → IsConsistent h
    → IsConsistent (on_transaction_state_changed compute_emojis t h)
unfolding on_transaction_state_changed show_banner
changed-IsConsistent emojis t h n c =
    let closed =
      resume_stalled_dialog-IsConsistent emojis (hide_banner (close_dialog h))
        (closed-IsConsistent h c) in
    elim t.state
      as (λ s. IsConsistent (elim s [
        | VerificationState.request_received ↦ show_banner t.transaction_id t.other_user_id h
        | VerificationState.key_received ↦
            if is_some h.vm && not (is_empty (emojis t)) then show_emoji_dialog emojis t h else h
        | VerificationState.done ↦ resume_stalled_dialog emojis (hide_banner (close_dialog h))
        | VerificationState.cancelled ↦ resume_stalled_dialog emojis (hide_banner (close_dialog h))
        | VerificationState.other ↦ h
      ])) [
        | VerificationState.request_received ↦ (rw n refl, c.1)
        | VerificationState.key_received ↦
            if_rule IsConsistent (is_some h.vm && not (is_empty (emojis t)))
              (λ s. show_emoji_dialog-IsConsistent emojis t h c) (λ s. c)
        | VerificationState.done ↦ closed
        | VerificationState.cancelled ↦ closed
        | VerificationState.other ↦ c
      ]

after-IsConsistent :
    (compute_emojis : Transaction → List Text) (e : Event) (h : Handler)
    → IsNamed e
    → IsConsistent h
    → IsConsistent (after compute_emojis e h)
unfolding after set_client set_sync_engine start_self start_user send accept_clicked reject_clicked
    hide_banner matched mismatched dialog_cancelled close_dialog dialog_deleted state_changed
after-IsConsistent emojis (Event.client_set x) h n c = c
after-IsConsistent emojis (Event.engine_set none) h n c = c
after-IsConsistent emojis (Event.engine_set (some ts)) h n c = c
after-IsConsistent emojis (Event.self_started d) h n c =
    if_rule IsConsistent (h.client && is_some h.vm) (λ s. c) (λ s. c)
after-IsConsistent emojis (Event.user_started u d) h n c =
    if_rule IsConsistent (h.client && is_some h.vm) (λ s. c) (λ s. c)
after-IsConsistent emojis Event.accepted h n c =
    if_rule IsConsistent (is_empty h.banner_txn_id) (λ s. c) (λ s. (refl, c.1))
after-IsConsistent emojis Event.rejected h n c =
    if_rule IsConsistent (is_empty h.banner_txn_id) (λ s. c) (λ s. (refl, c.1))
after-IsConsistent emojis (Event.changed t) h n c =
    if_rule IsConsistent (is_empty t.transaction_id) (λ s. c)
      (λ s. changed-IsConsistent emojis t h n c)
after-IsConsistent emojis (Event.gone txn) h n c =
    if_rule IsConsistent (is_empty txn) (λ s. c) (λ s. c)
after-IsConsistent emojis Event.emojis_matched h n c =
    if_rule IsConsistent (is_empty h.dialog_txn_id) (λ s. c) (λ s. c)
after-IsConsistent emojis Event.emojis_mismatched h n c =
    close_dialog-IsConsistent
      (if is_empty h.dialog_txn_id
        then h
        else send (Request.cancel_verification h.dialog_txn_id CancelCode.sas_mismatch) h)
      (if_rule IsConsistent (is_empty h.dialog_txn_id) (λ s. c) (λ s. c))
after-IsConsistent emojis Event.emojis_cancelled h n c =
    close_dialog-IsConsistent
      (if is_empty h.dialog_txn_id
        then h
        else send (Request.cancel_verification h.dialog_txn_id CancelCode.user) h)
      (if_rule IsConsistent (is_empty h.dialog_txn_id) (λ s. c) (λ s. c))
after-IsConsistent emojis Event.window_closed h n c = (c.0, λ d e. cc)

-- Whatever the user, the engine and the other side do, and in whatever order: the banner is shown
-- exactly while it has a transaction, and an open dialog is the dialog of the transaction that its
-- buttons answer for. The ids of the engine's transactions are not empty.
pub run-IsConsistent :
    (compute_emojis : Transaction → List Text) (es : List Event) (h : Handler)
    → AllNamed es
    → IsConsistent h
    → IsConsistent (run compute_emojis es h)
unfolding run
run-IsConsistent emojis [] h n c = c
run-IsConsistent emojis (e ∷ es) h (n, ns) c =
    run-IsConsistent emojis es (after emojis e h) ns (after-IsConsistent emojis e h n c)
