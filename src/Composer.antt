-- ===== src/Composer.antt =====
-- src/ui/chat/message_edit.cpp: what a key press in the message field does.
pub mod Send
use progressive_desktop.Base.{
  ℕ, ◌≡◌, refl, ◌⊎◌, inl, inr, ◌≢◌, Bool, true, false, Option, none, some, List, [], ◌∷◌, ◌++◌,
  arith, Text, is_empty, not, ◌&&◌, ◌||◌, if◌then◌else◌, take, drop, index_of, starts_with, All,
  split_blank, Bool-cases,
}

pub data Key : Type 0 where
  key_v key_return key_enter : Key
  other : ℕ → Key

pub record KeyEvent : Type 0 where
  pub key : Key
  pub control : Bool
  pub shift : Bool

pub data Signal (Image : Type 0) : Type 0 where
  image_pasted : Image → Signal Image
  slash_command : Text → Text → Signal Image
  send_message : Text → Signal Image

-- `consumed` is the result of `eventFilter`; where it is false the base class gets the event.
pub record Pressed (Image : Type 0) : Type 0 where
  pub signals : List (Signal Image)
  pub field : Text
  pub consumed : Bool

is_v : Key → Bool
is_v key_v = true
is_v _ = false

unfoldable pub is_return : Key → Bool
is_return key_return = true
is_return key_enter = true
is_return _ = false

-- `trimmed` is `QString::trimmed`.
module _ {Image : Type 0} (trimmed : Text → Text) where
  -- The signal for a text that starts with `/`: what follows up to the first blank, and the rest.
  slash_signal : Text → Signal Image
  slash_signal body = let parts = split_blank body in slash_command (drop 1 parts.0) parts.1

  send : Text → Pressed Image
  unfolding slash_signal
  send content =
      let body = trimmed content in
      if is_empty body then record { signals = []; field = content; consumed = true } else record {
        signals = (if starts_with b'/' body then slash_signal body else send_message body) ∷ [];
        field = [];
        consumed = true;
      }

  ignored : Text → Pressed Image
  ignored content = record { signals = []; field = content; consumed = false }

  return_key : KeyEvent → Text → Pressed Image
  unfolding send ignored is_return
  return_key e content = if is_return e.key && not e.shift then send content else ignored content

  -- The clipboard gives an image, a null image or none: the last two are both `none`.
  pub key_press : Option Image → KeyEvent → Text → Pressed Image
  unfolding return_key is_v
  key_press clipboard e content =
      if is_v e.key && e.control && not e.shift
      then elim clipboard [
        | some img ↦ record { signals = image_pasted img ∷ []; field = content; consumed = true }
        | none ↦ return_key e content
      ]
      else return_key e content
