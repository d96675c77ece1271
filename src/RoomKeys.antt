-- ===== src/RoomKeys.antt =====
-- src/ui/handlers/sync_response_handler.cpp: appendRoomKeyRows, which shows what happens to room keys
-- as system rows of the open room.
pub mod Caps
use progressive_desktop.Base.{
  ℕ, suc, ◌+◌, Bool, true, false, Option, none, some, List, [], ◌∷◌, ◌++◌, Text, text, is_empty,
  ◌==◌, not, ◌&&◌, ◌||◌, if◌then◌else◌, Map, lookup, length, take, ltb, leb,
}
use progressive_desktop.Base.Int.{ℤ, pos}
use progressive_desktop.Engine.{DisplayedEvent}

-- `RoomKeyEventKind`.
pub data Kind : Type 0 where
  requested received withheld gave_up : Kind

pub record Notification : Type 0 where
  pub room_id : Text
  pub kind : Kind
  pub from_user_id : Text
  pub session_id : Text
  pub detail : Text
  pub attempt : ℕ
  pub ts : ℤ

-- The rows appended so far and the three counters of the loop.
pub record Progress : Type 0 where
  pub rows : List DisplayedEvent
  pub requested_rows : ℕ
  pub withheld_rows : ℕ
  pub skipped : ℕ

unfoldable pub start : Progress
start = record { rows = []; requested_rows = 0; withheld_rows = 0; skipped = 0 }

-- A notification of the room that is open.
abbrev pub is_ours : Text → Notification → Bool
is_ours room n = n.room_id == room && not (is_empty n.room_id)

unfoldable pub short_sid : Text → Text
short_sid sid = if ltb 6 (length sid) then take 6 sid ++ text "…" else sid

-- `blank` is a default-constructed row, `decimal` and `decimal_ts` are `std::to_string`.
module _ (blank : DisplayedEvent) (decimal : ℕ → Text) (decimal_ts : ℤ → Text) where
  unfoldable pub key_body : Notification → Text → Text
  unfolding short_sid
  key_body n who = elim n.kind [
    | received ↦ who ++ text " sent us the room key (session " ++ short_sid n.session_id ++ text ")"
    | withheld ↦
        who
        ++ text " withheld the room key"
        ++ (if is_empty n.detail then [] else text " (" ++ n.detail ++ text ")")
    | gave_up ↦
        text "Gave up requesting the key from "
        ++ who
        ++ text " — right-click the message → “Request the key again”"
    | requested ↦
        text "No key yet — requested from "
        ++ who
        ++ (if ltb 1 n.attempt then text " again (session " else text " (session ")
        ++ short_sid n.session_id
        ++ text ")"
  ]

  -- The name of the sender in the cache of the room's handler, where there is one.
  unfoldable pub key_row : Option (Map Text) → Notification → DisplayedEvent
  unfolding key_body
  key_row cache n =
      let who : Text = elim cache [
        | none ↦ n.from_user_id
        | some m ↦ elim (lookup (n.from_user_id ++ text "/name") m) [
          | none ↦ n.from_user_id
          | some name ↦ name
        ]
      ] in
      record blank {
        event_type = text "progressive.system";
        event_id = text "rk" ++ take 8 n.session_id ++ text "_" ++ decimal_ts n.ts;
        origin_server_ts = n.ts;
        sender_name = text "system";
        body = key_body n who;
      }

  unfoldable pub append_row : Option (Map Text) → Notification → Progress → Progress
  unfolding key_row
  append_row cache n p = record p { rows = p.rows ++ key_row cache n ∷ [] }

  unfoldable pub skip : Progress → Progress
  skip p = record p { skipped = suc p.skipped }

  -- The body of the loop behind the test of the room.
  unfoldable pub key_event : Kind → Option (Map Text) → Notification → Progress → Progress
  unfolding skip append_row
  key_event requested cache n p =
      if leb 3 p.requested_rows
      then skip p
      else append_row cache n (record p { requested_rows = suc p.requested_rows })
  key_event withheld cache n p =
      if leb 3 p.withheld_rows
      then skip p
      else append_row cache n (record p { withheld_rows = suc p.withheld_rows })
  key_event received cache n p = append_row cache n p
  key_event gave_up cache n p = append_row cache n p

  unfoldable pub key_events : Option (Map Text) → Text → List Notification → Progress → Progress
  unfolding key_event
  key_events cache room [] p = p
  key_events cache room (n ∷ ns) p =
      key_events cache room ns (if is_ours room n then key_event n.kind cache n p else p)

  unfoldable pub summary : ℤ → ℕ → DisplayedEvent
  summary now skipped = record blank {
    event_type = text "progressive.system";
    event_id = text "rksum" ++ decimal_ts now;
    origin_server_ts = now;
    sender_name = text "system";
    body = text "…and " ++ decimal skipped ++ text " more key requests (see the E2EE log)";
  }

  -- `now` is the clock.
  unfoldable pub append_room_key_rows :
      Option (Map Text) → ℤ → Text → List Notification → List DisplayedEvent
  unfolding start key_events summary
  append_room_key_rows cache now room ns =
      let p = key_events cache room ns start in
      if ltb 0 p.skipped then p.rows ++ summary now p.skipped ∷ [] else p.rows
