-- ===== src/Tests/Rooms.antt =====
-- Examples for the rooms: the menu of the list, the keys of a room, its older messages and its part in a sync.
use progressive_desktop.Base.{
  ◌≡◌, refl, ◌⊎◌, ◌+◌, ◌≤◌, ℕ, Bool, true, false, none, some, List, [], ◌∷◌, ◌++◌, arith, Text,
  text, ◌==◌, if◌then◌else◌, All, length,
}
use progressive_desktop.Engine.{ApiResult}
use progressive_desktop.Tests.{blank, letter, unary}
use progressive_desktop.Tests.Lists.{Shelf, shelf, shelf_laws, hidden, hidden_laws, shared}
use progressive_desktop.Rooms.{RoomData, RoomSyncUpdate, Store}
use progressive_desktop.RoomMenu.{Use, State, Choice, Call, leave, forget}
use progressive_desktop.RoomMenu.Entries.{entry, run, settle_all, run-entry}
use progressive_desktop.KeyShare.{Member, Server, share_room_key_for_room}
use progressive_desktop.KeyShare.Recipients.{
  IsFair, share_room_key_for_room-IsFair, share_room_key_for_room_settles,
}
use progressive_desktop.History.{Raw}
use progressive_desktop.RoomHandler.{View, on_room_clicked, on_load_more_clicked, page_loaded}
use progressive_desktop.RoomHandler.Page
use progressive_desktop.RoomHandler.Rows.{IsRow, read_page-IsRow}
use progressive_desktop.RoomHandler.Paging.{page_loaded_strays}
use progressive_desktop.Feed
use progressive_desktop.SyncHandler.{Late, sync_applied}
use progressive_desktop.SyncHandler.Notices.{sync_applied_skips_flag}
use progressive_desktop.Members.{StateReplies}

abbrev accepted : ApiResult
accepted = record { ok = true; http_status = 200; code = []; message = []; content = letter 5 }

abbrev room : ℕ → RoomData
room n = record {
  room_id = letter n;
  name = letter n;
  avatar_url = [];
  is_encrypted = false;
  is_invite = false;
  unread_count = 1;
  highlight_count = 0;
  state_loaded = false;
  last_message = [];
}

-- A room is forgotten, after it could not be left.
abbrev use_of : Choice → Bool → Use
use_of c ok = record {
  room = room 1;
  picked = some c;
  confirmed = true;
  alive = true;
  store = true;
  reply = λ (c : Call). record accepted { ok = ok };
}

abbrev uses : List Use
uses = use_of leave false ∷ use_of forget true ∷ []

abbrev menu : State Shelf (Text → Bool)
menu = record {
  rooms = (room 1 ∷ room 2 ∷ [], λ k. false);
  saved = λ k. k == letter 1;
  status = [];
  calls = [];
  left = [];
}

run-entry_example :
    entry shelf hidden (letter 1) (run shelf hidden uses menu)
    ≡ settle_all (letter 1) uses (entry shelf hidden (letter 1) menu)
run-entry_example = run-entry shelf hidden shelf_laws hidden_laws (letter 1) uses menu

abbrev member : Text → ℕ → Member
member kind n = record { membership = some kind; state_key = some (letter n) }

abbrev server : Server
server = record {
  members = λ room. some (member (text "join") 7 ∷ member (text "leave") 8 ∷ []);
  share = λ room ids. true;
}

share_room_key_for_room-IsFair_example :
    All
      (IsFair shared server (letter 1))
      (share_room_key_for_room shared server (letter 1) (λ k. false)).2
share_room_key_for_room-IsFair_example =
    share_room_key_for_room-IsFair shared server (letter 1) (λ k. false)

share_room_key_for_room_settles_example :
    let (done, d, steps) = share_room_key_for_room shared server (letter 1) (λ k. false) in
    (d (letter 1) ≡ done)
    × ((letter 1 ≡ letter 2) ⊎ (d (letter 2) ≡ false))
    × ((share_room_key_for_room shared server (letter 1) d).2 ≡ (if done then [] else steps))
share_room_key_for_room_settles_example =
    share_room_key_for_room_settles shared server (record { shared-mark = λ a b d. refl })
      (letter 1) (letter 2) (λ k. false)

abbrev engine : Page.Engine
engine = record {
  extract = λ c k. [];
  relation = λ c. none;
  system_body = λ t c k. [];
  convert = λ d. d;
  blank = blank;
}

abbrev has_row : Text → Bool
has_row id = false

-- A message and a reaction without a relation.
abbrev events : List Raw
events =
    record {
      fields = record blank { event_id = letter 1; event_type = text "m.room.message" };
      state_key = [];
    }
    ∷ record {
      fields = record blank { event_id = letter 2; event_type = text "m.reaction" };
      state_key = [];
    }
    ∷ []

read_page-IsRow_example :
    let p = Page.read_page engine has_row [] events in
    All (IsRow engine has_row []) p.events × (length p.events + length p.calls ≤ 2)
read_page-IsRow_example = read_page-IsRow engine has_row [] events refl

abbrev view : View Shelf
view = record {
  current_room = letter 2;
  prev_batch = letter 3;
  cache = [];
  load_more_enabled = true;
  load_more_shown = true;
  timeline_shown = true;
  log_checked = false;
  thread_open = false;
  chat_room = letter 2;
  chat_encrypted = false;
  status = [];
  rooms = (room 1 ∷ room 2 ∷ [], λ k. false);
  timeline = [];
  requests = [];
}

page_loaded_strays_example :
    let w =
      page_loaded shelf unary engine has_row (Page.page none (some (letter 4)) (some events)) (
        on_room_clicked shelf unary (some (room 1)) (on_load_more_clicked shelf unary true view)) in
    let p = Page.read_page engine has_row [] events in
    (w.current_room ≡ letter 1)
    × (w.prev_batch ≡ Page.next_batch none (some (letter 4)))
    × (w.timeline ≡ Page.clear ∷ p.calls ++ Page.append_front p.events ∷ [])
page_loaded_strays_example =
    page_loaded_strays shelf unary engine has_row true none (some (letter 4)) events (room 1) view

-- The open room becomes encrypted, behind another one with something unread.
abbrev update : RoomSyncUpdate
update = record {
  rooms_to_remove = [];
  rooms_to_upsert = room 1 ∷ record (room 2) { is_encrypted = true } ∷ [];
  invited_rooms = [];
  current_room_updated = false;
  current_room_id = [];
  current_room_avatars = [];
  current_room_events = [];
}

abbrev feed_engine : Feed.Engine
feed_engine = record {
  extract = λ c k. [];
  relation = λ c. none;
  system_body = λ t c k. [];
  displayed = λ e. blank;
  blank = blank;
}

abbrev late : Late
late = record { decrypt = λ t c e. blank; avatar_of = λ id. none }

abbrev store : Store
store = record { member_avatars = []; last_applied_room = [] }

sync_applied_skips_flag_example :
    (sync_applied shelf unary feed_engine has_row late update [] []
      (letter 2)
      (λ s. length s.0)
      0
      store
      view).view.chat_encrypted
    ≡ false
sync_applied_skips_flag_example =
    sync_applied_skips_flag shelf unary feed_engine has_row late update [] [] (λ s. length s.0) 0
      store view (room 1) (record (room 2) { is_encrypted = true } ∷ []) refl refl
      (λ e. absurd (ground (arith, e))) refl

abbrev replies : StateReplies
replies = record {
  name_reply = accepted;
  avatar_reply = accepted;
  encryption_reply = record accepted { ok = false };
}
