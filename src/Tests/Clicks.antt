-- ===== src/Tests/Clicks.antt =====
-- Examples for the clicks in the timeline and the keys of the window.
use progressive_desktop.Base.{
  ◌≡◌, refl, ℕ, true, false, none, some, List, [], ◌∷◌, arith, Text, text,
}
use progressive_desktop.Base.Int.{ℤ, pos}
use progressive_desktop.Engine.{DisplayedEvent}
use progressive_desktop.Tests.{blank, letter, unary, unary_ts}
use progressive_desktop.Zones.{Click}
use progressive_desktop.Clicks
use progressive_desktop.Window
use progressive_desktop.Window.Keys.{IsSound, press_all, tabs, press_all-IsSound, tabs_turn}

abbrev text_height : Text → Text → ℤ → ℕ
text_height body kind w = 17

abbrev advance : Text → ℕ
advance t = 10

abbrev anchor_at : Text → ℤ → ℤ → ℤ → Text
anchor_at body w x y = []

abbrev screen : Clicks.Screen ℕ
screen = record {
  loader = none;
  null_image = 0;
  decimal = unary;
  text_height = text_height;
  advance = advance;
  anchor_at = anchor_at;
  stamp = unary_ts;
  my_user = [];
  width = 400;
}

abbrev reacted : DisplayedEvent
reacted = record blank {
  event_id = letter 1;
  body = letter 97;
  reactions = record { emoji = letter 9; count = 1; user_ids = []; reaction_event_id = [] } ∷ [];
}

-- Below the bubble, on the pill.
abbrev on_reaction : Click
on_reaction = record { x = pos 70; y = 60 }

abbrev document : DisplayedEvent
document = record blank {
  event_id = letter 1;
  body = letter 97;
  msgtype = text "m.file";
  mxc_url = letter 5;
}

abbrev photo : DisplayedEvent
photo = record blank { event_id = letter 1; msgtype = text "m.image"; mxc_url = letter 5 }

abbrev window_world : Window.World
window_world = record {
  has_client = true;
  has_thread_handler = true;
  current_room = letter 1;
  user_id = letter 2;
  event_id = λ row. letter row;
  find = λ id. none;
  my_reaction_id = λ id emoji. [];
}

abbrev window : Window.Window
window = record {
  room_row = none;
  rooms = 2;
  timeline_row = some 0;
  messages = 1;
  account_row = some 1;
  accounts = 3;
}

abbrev keys : List Window.KeyEvent
keys =
    record { key = Window.down; alt = true; ctrl = false; shift = false }
    ∷ record { key = Window.down; alt = false; ctrl = true; shift = false }
    ∷ record { key = Window.tab; alt = false; ctrl = true; shift = false }
    ∷ []

press_all-IsSound_example : IsSound (press_all window_world keys window)
press_all-IsSound_example =
    press_all-IsSound window_world keys window (tt, omega arith, omega arith)

tabs_turn_example : (press_all window_world (tabs window_world 2) window).account_row ≡ some 0
tabs_turn_example = tabs_turn window_world 2 1 window (omega arith) (omega arith) (omega arith) refl
