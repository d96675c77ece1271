-- ===== src/Tests/Files.antt =====
-- Examples for the files and the quick reactions of the chat view.
use progressive_desktop.Base.{◌≡◌, refl, true, false, some, [], ◌++◌, text, count_if}
use progressive_desktop.Base.Int.{pos}
use progressive_desktop.Tests.{blank, letter}
use progressive_desktop.Attach.{World, File, attach_file}
use progressive_desktop.Attach.Secrecy.{is_row, attach_file_answers}

-- Every call succeeds; the media cipher puts the key before the bytes.
abbrev world : World
world = record {
  blank = blank;
  user_id = letter 64;
  ready = true;
  alive = true;
  alive_in_reply = true;
  session = letter 7;
  media_key_iv = some (letter 8, letter 9);
  aes_ctr = λ bytes key iv. key ++ bytes;
  sha256 = λ bytes. letter 3;
  encrypt = λ inner. letter 4;
  key_shared = false;
  reply = λ c. record { ok = true; result = letter 5; message = [] };
  now = pos 1000;
}

abbrev picture : File
picture = record {
  name = text "a.png";
  content_type = text "image/png";
  is_image = true;
  is_video = false;
  is_audio = false;
  bytes = some (letter 1);
}

attach_file_answers_example : count_if is_row (attach_file world (letter 33) true false picture) ≡ 1
attach_file_answers_example =
    attach_file_answers world (letter 33) refl false picture (letter 1) refl refl (λ b. refl)
      (λ b. refl)
