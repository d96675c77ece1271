-- ===== src/Attach/Secrecy.antt =====
-- What doAttachFile of src/ui/chat/chat_view.cpp hands to the server, and what it shows.
use progressive_desktop.Base.{
  ◌≡◌, refl, Bool, true, false, none, some, List, ◌++◌, arith, Text, text, is_empty, ◌&&◌, if_rule,
  count_if,
}
use progressive_desktop.Attach.{
  Action, World, File, Media, queued, fail_notice, file_echo, share_first, send_file,
  upload_encrypted, encrypted_file, plain_file, attach_file, call, upload_media,
  send_encrypted_event, send_message_event, send_reaction, append_back, file_body,
}

abbrev pub is_row : Action → Bool
is_row (append_back e) = true
is_row _ = false

module _ (w : World) (room : Text) where
  -- The action hands the server nothing readable: an upload carries the bytes enciphered, an event its
  -- ciphertext.
  abbrev pub IsSealed : Text → Action → Type 0
  IsSealed bytes (call (upload_media b name kind)) = (key iv : Text) × (b ≡ w.aes_ctr bytes key iv)
  IsSealed bytes (call (send_message_event r body)) = ⊥
  IsSealed bytes (call (send_reaction r e k)) = ⊥
  IsSealed bytes _ = Unit

  module _ (alive : w.alive_in_reply ≡ true) where
    fail_notice_row : (message : Text) → count_if is_row (fail_notice w room message) ≡ 1
    unfolding fail_notice queued
    fail_notice_row message = rw alive refl

    send_file_row :
        (f : File) (m : Media)
        → ((body : Text) → (w.reply (send_encrypted_event room body)).ok ≡ true)
        → count_if is_row (send_file w room f m) ≡ 1
    unfolding send_file fail_notice file_echo share_first queued
    send_file_row f m accepted =
        let inner =
          text "{\"type\":\"m.room.message\",\"content\":"
          ++ file_body w room f m
          ++ text ",\"room_id\":\""
          ++ room
          ++ text "\"}" in
        let ok = accepted (w.encrypt inner) in ground arith

    upload_row :
        (f : File) (bytes key iv : Text)
        → ((body : Text) → (w.reply (send_encrypted_event room body)).ok ≡ true)
        → count_if is_row (upload_encrypted w room f bytes key iv) ≡ 1
    unfolding upload_encrypted
    upload_row f bytes key iv accepted =
        if_rule (λ xs. count_if is_row xs ≡ 1) (is_empty (w.aes_ctr bytes key iv))
          (λ s. fail_notice_row _)
          (λ s.
            if_rule (λ xs. count_if is_row xs ≡ 1)
              (w.reply (upload_media (w.aes_ctr bytes key iv) f.name f.content_type)).ok
              (λ t. send_file_row f _ accepted) (λ t. fail_notice_row _))

    plain_file_row :
        (f : File) (bytes : Text)
        → ((body : Text) → (w.reply (send_message_event room body)).ok ≡ true)
        → count_if is_row (plain_file w room f bytes) ≡ 1
    unfolding plain_file file_echo queued
    plain_file_row f bytes accepted =
        if_rule (λ xs. count_if is_row xs ≡ 1)
          (w.reply (upload_media bytes f.name f.content_type)).ok (λ t. rw (accepted _, alive) refl)
          (λ t. fail_notice_row _)

    encrypted_file_row :
        (f : File) (bytes : Text)
        → ((body : Text) → (w.reply (send_encrypted_event room body)).ok ≡ true)
        → count_if is_row (encrypted_file w room f bytes) ≡ 1
    unfolding encrypted_file
    encrypted_file_row f bytes accepted =
        if_rule (λ xs. count_if is_row xs ≡ 1) (is_empty w.session) (λ s. fail_notice_row _)
          (λ s.
            elim w.media_key_iv
              as (λ k.
                count_if is_row (elim k as (λ x. List Action) [
                  | none ↦ fail_notice w room (text "❌ Media key generation failed")
                  | some (key, iv) ↦ upload_encrypted w room f bytes key iv
                ])
                ≡ 1) [
                  | none ↦ fail_notice_row _
                  | some (key, iv) ↦ upload_row f bytes key iv accepted
                ])

    -- A file that can be read is answered with exactly one row, its echo or a notice, whichever step
    -- fails, as long as the view lives, the room has an id and the server accepts the event itself.
    pub attach_file_answers :
        (encrypted : Bool) (f : File) (bytes : Text)
        → f.bytes ≡ some bytes
        → is_empty room ≡ false
        → ((body : Text) → (w.reply (send_encrypted_event room body)).ok ≡ true)
        → ((body : Text) → (w.reply (send_message_event room body)).ok ≡ true)
        → count_if is_row (attach_file w room true encrypted f) ≡ 1
    unfolding attach_file
    attach_file_answers encrypted f bytes e r secret plain =
        rw (e, r)
          (if_rule (λ xs. count_if is_row xs ≡ 1) (encrypted && w.alive && w.ready)
            (λ s. encrypted_file_row f bytes secret) (λ s. plain_file_row f bytes plain))
