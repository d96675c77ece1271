-- ===== src/Verify/Answers.antt =====
-- What the buttons of src/ui/handlers/verification_handler.cpp answer, and what the end of a
-- transaction does to the banner and the dialog.
use progressive_desktop.Base.{
  ◌≡◌, refl, true, false, Option, none, some, List, [], ◌∷◌, ◌++◌, arith, Text, is_empty, is_some,
  not, ◌||◌, if◌then◌else◌, ◌⊎◌, inl, inr, if_rule,
}
use progressive_desktop.Verify.{
  VerificationState, CancelCode, Transaction, Dialog, Handler, Request, active, send, hide_banner,
  accept_clicked, close_dialog, matched, mismatched, dialog_cancelled, first_stalled,
  show_emoji_dialog, show_banner, resume_stalled_dialog, on_transaction_state_changed,
}
use progressive_desktop.Verify.Steps.{IsConsistent}

-- The dialog that shows the emojis of a transaction, where it has any.
abbrev pub dialog_of : (Transaction → List Text) → Option Transaction → Option Dialog
dialog_of emojis none = none
dialog_of emojis (some t) =
    if is_empty (emojis t)
    then none
    else some
        (record { txn_id = t.transaction_id; other_user = t.other_user_id; emojis = emojis t })

-- The buttons of an open dialog answer for the transaction of that dialog, each with its own request,
-- and the two that refuse close it. The dialog's transaction has an id.
pub buttons_answer :
    (h : Handler) (d : Dialog)
    → IsConsistent h
    → h.dialog ≡ some d
    → is_empty d.txn_id ≡ false
    → ((matched h).sent ≡ h.sent ++ Request.confirm_match d.txn_id ∷ [])
      × ((mismatched h).sent
          ≡ h.sent ++ Request.cancel_verification d.txn_id CancelCode.sas_mismatch ∷ [])
      × ((dialog_cancelled h).sent
          ≡ h.sent ++ Request.cancel_verification d.txn_id CancelCode.user ∷ [])
      × ((mismatched h).dialog ≡ none)
      × ((dialog_cancelled h).dialog ≡ none)
unfolding matched mismatched dialog_cancelled send close_dialog
buttons_answer h d (b, k) e n = let same = k d e in rw (same, n) (refl, refl, refl, refl, refl)

-- The two states in which a transaction ends are handled alike.
ended :
    (emojis : Transaction → List Text) (t : Transaction) (h : Handler)
    → (t.state ≡ VerificationState.done) ⊎ (t.state ≡ VerificationState.cancelled)
    → on_transaction_state_changed emojis t h
      ≡ resume_stalled_dialog emojis (hide_banner (close_dialog h))
unfolding on_transaction_state_changed resume_stalled_dialog
ended emojis t h (inl p) = rw (on_transaction_state_changed, p) refl
ended emojis t h (inr p) = rw (on_transaction_state_changed, p) refl

-- To show a dialog changes neither the banner nor what was sent.
show_keeps :
    (emojis : Transaction → List Text) (t : Transaction) (h : Handler)
    → let g = show_emoji_dialog emojis t h in
      (g.banner_shown ≡ h.banner_shown) × (g.banner_txn_id ≡ h.banner_txn_id) × (g.sent ≡ h.sent)
unfolding show_emoji_dialog
show_keeps emojis t h =
    if_rule
      (λ (g : Handler).
        (g.banner_shown ≡ h.banner_shown) × (g.banner_txn_id ≡ h.banner_txn_id) × (g.sent ≡ h.sent))
      (not (is_some h.vm) || is_some h.dialog || is_empty (emojis t)) (λ s. (refl, refl, refl))
      (λ s. (refl, refl, refl))

resume_keeps :
    (emojis : Transaction → List Text) (h : Handler)
    → let g = resume_stalled_dialog emojis h in
      (g.banner_shown ≡ h.banner_shown) × (g.banner_txn_id ≡ h.banner_txn_id) × (g.sent ≡ h.sent)
unfolding resume_stalled_dialog
resume_keeps emojis h =
    let Kept = λ (g : Handler).
      (g.banner_shown ≡ h.banner_shown) × (g.banner_txn_id ≡ h.banner_txn_id) × (g.sent ≡ h.sent) in
    if_rule Kept (not (is_some h.vm) || is_some h.dialog) (λ s. (refl, refl, refl))
      (λ s.
        elim (first_stalled (active h))
          as (λ o. Kept (elim o [ none ↦ h | some t ↦ show_emoji_dialog emojis t h ])) [
            | none ↦ (refl, refl, refl)
            | some t ↦ show_keeps emojis t h
          ])

shown :
    (emojis : Transaction → List Text) (t : Transaction) (h : Handler)
    → is_some h.vm ≡ true
    → h.dialog ≡ none
    → (show_emoji_dialog emojis t h).dialog ≡ dialog_of emojis (some t)
unfolding show_emoji_dialog
shown emojis t h v d = ground (arith, v, d)

-- The end of one transaction drops the request of another: if the banner asks about a request when
-- a transaction ends, the button that accepts it sends nothing afterwards.
end_drops_request :
    (emojis : Transaction → List Text) (t : Transaction) (h : Handler)
    → (t.state ≡ VerificationState.done) ⊎ (t.state ≡ VerificationState.cancelled)
    → (accept_clicked (on_transaction_state_changed emojis t h)).sent ≡ h.sent
unfolding hide_banner close_dialog accept_clicked send
end_drops_request emojis t h s =
    let (shown, txn, sent) = resume_keeps emojis (hide_banner (close_dialog h)) in
    rw (ended emojis t h s, accept_clicked, txn) sent

-- While a dialog is open, news of any transaction that has not ended leaves it open.
pub open_dialog_stays :
    (emojis : Transaction → List Text) (t : Transaction) (h : Handler) (d : Dialog)
    → h.dialog ≡ some d
    → ((t.state ≡ VerificationState.request_received) ⊎ (t.state ≡ VerificationState.key_received))
      ⊎ (t.state ≡ VerificationState.other)
    → (on_transaction_state_changed emojis t h).dialog ≡ some d
unfolding on_transaction_state_changed show_banner show_emoji_dialog
open_dialog_stays emojis t h d e (inl (inl p)) = rw (on_transaction_state_changed, p) e
open_dialog_stays emojis t h d e (inl (inr p)) =
    rw (on_transaction_state_changed, p) (ground (arith, e))
open_dialog_stays emojis t h d e (inr p) = rw (on_transaction_state_changed, p) e
