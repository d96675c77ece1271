-- ===== src/Tests/Messages.antt =====
-- Examples for the commands, the message field, the escapes of JSON and the sending of messages.
use progressive_desktop.Base.{
  ◌≡◌, refl, inl, inr, Bool, true, false, none, some, [], ◌∷◌, ◌++◌, arith, Text, get_elem?,
}
use progressive_desktop.Base.Int.{pos}
use progressive_desktop.Tests.{blank, letter, unary_ts}
use progressive_desktop.Composer.{KeyEvent, Key}
use progressive_desktop.Json.{quote, escape, read_string}
use progressive_desktop.Json.Escape.{read_string-escape}
use progressive_desktop.Chat.{Chat, World, Action, do_send, echo, temp_id}
use progressive_desktop.Chat.Echo.{replaced_ids, do_send_answers}

abbrev return_pressed : KeyEvent
return_pressed = record { key = Key.key_return; control = false; shift = false }

abbrev slash_text : Text
slash_text = b'/' ∷ b'm' ∷ b'e' ∷ b' ' ∷ b'x' ∷ []

read_string-escape_example :
    read_string (escape (b'a' ∷ quote ∷ 10 ∷ []) ++ quote ∷ letter b'}')
    ≡ some (b'a' ∷ quote ∷ 10 ∷ [], letter b'}')
read_string-escape_example =
    read_string-escape (b'a' ∷ quote ∷ 10 ∷ []) (letter b'}')
      (inl (omega arith), (inl (omega arith), (inr refl, tt)))

-- A world in which every call succeeds and every text is its own ciphertext.
abbrev world : Bool → World
world initialized = record {
  user_id = letter 1;
  device_id = letter 2;
  has_sync = true;
  initialized = initialized;
  outbound_session = λ r. letter 3;
  encrypt_message = λ r d t. letter 4;
  room_key_shared = λ r. false;
  share_succeeds = λ r. true;
  reply = λ q. record { ok = true; event_id = letter 5; message = [] };
  now = pos 1000;
  reply_time = pos 1001;
  stamp = unary_ts;
  alive_in_job = true;
  alive_in_reply = true;
}

abbrev chat : Chat
chat = record { room_id = letter 33; thread_root = letter 34; encrypted = true }

do_send_answers_example :
    (get_elem? (do_send blank (world true) true none chat (letter b'a')) 0
      ≡ some (Action.append_back (echo blank (world true) chat (letter b'a'))))
    × (replaced_ids (do_send blank (world true) true none chat (letter b'a'))
        ≡ temp_id blank (world true) ∷ [])
do_send_answers_example = do_send_answers blank (world true) none chat (letter b'a') (λ e. cc) refl
