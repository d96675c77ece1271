-- ===== src/RoomHandler/Page.antt =====
-- src/ui/handlers/room_handler.cpp: the loop of onLoadMoreClicked over one page of older events.
use progressive_desktop.Base.{
  Bool, Option, none, some, List, [], ◌∷◌, ◌++◌, Text, text, is_empty, ◌==◌, not, ◌&&◌, ◌||◌,
  if◌then◌else◌, Map, lookup,
}
use progressive_desktop.Engine.{DisplayedEvent}
use progressive_desktop.History.{Raw}

pub data RowCall : Type 0 where
  clear : RowCall
  mark_deleted : Text → RowCall
  add_reaction : Text → Text → Text → RowCall
  update_body : Text → Text → RowCall
  append_front : List DisplayedEvent → RowCall

-- A reply: an error, no JSON, or the tokens `end` and `start` and the array `chunk`, where they are there.
pub data Answer : Type 0 where
  failed unparsed : Answer
  page : Option Text → Option Text → Option (List Raw) → Answer

-- `extract` is `SyncApplier::extractStringDec`, `relation` reads `event_id` and `key` of `m.relates_to`,
-- `convert` is `fastEventToDisplayed`, and `blank` a default-constructed row.
pub record Engine : Type 0 where
  pub extract : Text → Text → Text
  pub relation : Text → Option (Text × Text)
  pub system_body : Text → Text → Text → Text
  pub convert : DisplayedEvent → DisplayedEvent
  pub blank : DisplayedEvent

pub record ReadPage : Type 0 where
  pub events : List DisplayedEvent
  pub calls : List RowCall

-- Where the next page begins.
unfoldable pub next_batch : Option Text → Option Text → Text
next_batch end start =
    let from_start : Text = elim start [ none ↦ [] | some s ↦ s ] in
    elim end as (λ x. Text) [ none ↦ from_start | some e ↦ if is_empty e then from_start else e ]

abbrev pub is_state : Text → Bool
is_state t =
    t == text "m.room.member"
    || t == text "m.room.topic"
    || t == text "m.room.name"
    || t == text "m.room.encryption"
    || t == text "m.room.create"
    || t == text "m.room.avatar"

abbrev pub is_reaction : DisplayedEvent → Bool
is_reaction d = d.event_type == text "m.reaction" && not (is_empty d.content_json)

unfoldable pub put_call : RowCall → ReadPage → ReadPage
put_call c p = record p { calls = p.calls ++ c ∷ [] }

unfoldable pub put_row : DisplayedEvent → ReadPage → ReadPage
put_row d p = record p { events = p.events ++ d ∷ [] }

module _ (g : Engine) (has_row : Text → Bool) (cache : Map Text) where
  unfoldable pub redact : DisplayedEvent → ReadPage → ReadPage
  unfolding put_call
  redact d p =
      let target = g.extract d.content_json (text "redacts") in
      if is_empty target then p else put_call (mark_deleted target) p

  unfoldable pub react : DisplayedEvent → ReadPage → ReadPage
  unfolding put_call
  react d p = elim (g.relation d.content_json) [
    | none ↦ p
    | some (target, key) ↦ put_call (add_reaction target key d.sender_id) p
  ]

  unfoldable pub state_row : Raw → ReadPage → ReadPage
  unfolding put_row
  state_row r p =
      let d = r.fields in
      let words = g.system_body d.event_type d.content_json r.state_key in
      if is_empty words
      then p
      else put_row
          (record g.blank {
            event_type = text "progressive.system";
            event_id = d.event_id;
            sender_name = text "system";
            origin_server_ts = d.origin_server_ts;
            body = words;
          })
          p

  -- What is known of the sender.
  unfoldable pub dress : DisplayedEvent → DisplayedEvent
  dress d =
      let d' =
        if d.event_type == text "m.room.encrypted"
        then record d { body = text "[encrypted]"; msgtype = text "m.notice" }
        else d in
      record d' {
        avatar_url = elim (lookup d.sender_id cache) as (λ x. Text) [
          | none ↦ d.avatar_url
          | some url ↦ url
        ];
        sender_name = elim (lookup (d.sender_id ++ text "/name") cache) as (λ x. Text) [
          | none ↦ d.sender_name
          | some name ↦ name
        ];
      }

  unfoldable pub edit_or_row : DisplayedEvent → ReadPage → ReadPage
  unfolding put_call put_row
  edit_or_row d p =
      if d.is_replace && has_row d.replace_target_id
      then put_call (update_body d.replace_target_id (d.body ++ text " (edited)")) p
      else put_row d p

  unfoldable pub message : DisplayedEvent → ReadPage → ReadPage
  unfolding react dress edit_or_row
  message d0 p =
      let d = g.convert d0 in if is_reaction d then react d p else edit_or_row (dress d) p

  -- The body of the loop.
  unfoldable pub page_event : Raw → ReadPage → ReadPage
  unfolding redact react state_row message
  page_event r p =
      let d = r.fields in
      let t = d.event_type in
      if t == text "m.room.redaction" && not (is_empty d.content_json)
      then redact d p
      else if is_reaction d
      then react d p
      else if is_state t
      then state_row r p
      else if t == text "m.typing" || t == text "m.receipt" || t == text "m.fully_read"
      then p
      else if t == text "m.room.message" || t == text "m.room.encrypted"
      then message d p
      else p

  unfoldable pub page_events : List Raw → ReadPage → ReadPage
  unfolding page_event
  page_events [] p = p
  page_events (r ∷ rs) p = page_events rs (page_event r p)

  abbrev pub reverse : List DisplayedEvent → List DisplayedEvent
  reverse [] = []
  reverse (d ∷ ds) = reverse ds ++ d ∷ []

  -- The calls of the page, and its rows with the oldest first.
  unfoldable pub read_page : List Raw → ReadPage
  unfolding page_events
  read_page rs =
      let p = page_events rs (record { events = []; calls = [] }) in
      record p { events = reverse p.events }
