-- ===== src/Composer/Send.antt =====
-- The key handler of src/ui/chat/message_edit.cpp: what is sent when the user presses Return.
use progressive_desktop.Base.{
  ◌≡◌, ◌⊎◌, inl, inr, ◌≢◌, true, false, Option, [], ◌∷◌, ◌++◌, arith, Text, All, split_blank,
  split_blank_lem, starts_with, eqb_iff, drop,
}
use progressive_desktop.Composer.{KeyEvent, slash_command, send_message, is_return, key_press}

slash_parts_of :
    (a b body : Text)
    → All (λ x. x ≢ b' ') a
    → (◌≡◌ {A = Text × Text} (a, b) (body, [])) ⊎ (a ++ b' ' ∷ b ≡ body)
    → starts_with b'/' body ≡ true
    → All (λ x. x ≢ b' ') (drop 1 a)
      × (((body ≡ b'/' ∷ drop 1 a) × (b ≡ [])) ⊎ (body ≡ (b'/' ∷ drop 1 a) ++ b' ' ∷ b))
slash_parts_of [] b body h (inl e) s = ground arith
slash_parts_of [] b [] h (inr e) s = cc
slash_parts_of [] b (x ∷ body) h (inr e) s = ground (arith, eqb_iff x b'/')
slash_parts_of (x ∷ a) b [] h (inl e) s = cc
slash_parts_of (x ∷ a) b (y ∷ body) h (inl e) s =
    (h.1, inl (ground (arith, eqb_iff y b'/'), ground arith))
slash_parts_of (x ∷ a) b [] h (inr e) s = cc
slash_parts_of (x ∷ a) b (y ∷ body) h (inr e) s = (h.1, inr (ground (arith, eqb_iff y b'/')))

-- Return on a text that starts with `/` sends one slash command and empties the field; the command
-- has no blank, and `/`, the command and, behind a blank, its arguments are the text that was
-- typed: nothing of it is lost.
key_press_slash :
    {Image : Type 0} (trimmed : Text → Text) (clipboard : Option Image) (e : KeyEvent)
    (content : Text)
    → is_return e.key ≡ true
    → e.shift ≡ false
    → starts_with b'/' (trimmed content) ≡ true
    → (cmd args : Text) × (key_press trimmed clipboard e content
        ≡ record { signals = slash_command cmd args ∷ []; field = []; consumed = true })
      × All (λ x. x ≢ b' ') cmd
      × (((trimmed content ≡ b'/' ∷ cmd) × (args ≡ []))
          ⊎ (trimmed content ≡ (b'/' ∷ cmd) ++ b' ' ∷ args))
unfolding key_press
key_press_slash trimmed clipboard e content r s h =
    let parts = split_blank (trimmed content) in
    let lem = split_blank_lem (trimmed content) in
    let (clean, whole) = slash_parts_of parts.0 parts.1 (trimmed content) lem.0 lem.1 h in
    (drop 1 parts.0, parts.1, ground arith, clean, whole)

-- Return on any other text that is not all blank sends exactly that text, trimmed, and empties the
-- field.
pub key_press_plain :
    {Image : Type 0} (trimmed : Text → Text) (clipboard : Option Image) (e : KeyEvent)
    (content : Text)
    → is_return e.key ≡ true
    → e.shift ≡ false
    → trimmed content ≢ []
    → starts_with b'/' (trimmed content) ≡ false
    → key_press trimmed clipboard e content
      ≡ record { signals = send_message (trimmed content) ∷ []; field = []; consumed = true }
unfolding key_press
key_press_plain trimmed clipboard e content r s ne h = ground arith

-- Whatever key is pressed, the field keeps its text unless that text was sent, trimmed and not
-- empty, as a message or as a command.
key_press_keeps :
    {Image : Type 0} (trimmed : Text → Text) (clipboard : Option Image) (e : KeyEvent)
    (content : Text)
    → let after = key_press trimmed clipboard e content in
      (after.field ≡ content)
      ⊎ ((trimmed content ≢ [])
          × ((after.signals ≡ send_message (trimmed content) ∷ [])
              ⊎ (let parts = split_blank (trimmed content) in
                  after.signals ≡ slash_command (drop 1 parts.0) parts.1 ∷ [])))
unfolding key_press
key_press_keeps trimmed clipboard e content = ground arith
