-- ===== src/History.antt =====
-- src/ui/room/room_data_loader.cpp: RoomDataLoader::loadHistory, which turns one page of a room's
-- history into rows. The parsed page is the argument `Page`; the engine's conversions are those of
-- Feed, and what the timeline is asked for is a list of its calls.
pub mod Dividers
pub mod Reactions
use progressive_desktop.Base.{
  ℕ, suc, ◌+◌, ◌*◌, Bool, true, false, Option, none, some, List, [], ◌∷◌, ◌++◌, map, Text, text,
  is_empty, ◌==◌, not, ◌&&◌, ◌||◌, if◌then◌else◌, Map, lookup, insert, length, take, drop, keep,
  eqb, leb, index_of,
}
use progressive_desktop.Base.Int.{ℤ, pos, negsuc, sub_ℕ, div_ℤ, ltb_ℤ}
use progressive_desktop.Engine.{DisplayedEvent}
use progressive_desktop.Feed.{
  PendingReaction, Call, Call.mark_deleted, Call.update_body, Call.append_back_batch,
  Call.add_reaction, is_reaction,
}

-- An event of the page: the fields that `parseEventFields` fills, and its state key.
pub record Raw : Type 0 where
  pub fields : DisplayedEvent
  pub state_key : Text

pub record Page : Type 0 where
  pub chunk : List Raw
  pub end : Option Text
  pub start : Option Text

-- `convert` is `fastEventToDisplayed`, `label` is `dateDividerLabel`.
pub record Engine : Type 0 where
  pub extract : Text → Text → Text
  pub relation : Text → Option (Text × Text)
  pub system_body : Text → Text → Text → Text
  pub convert : DisplayedEvent → DisplayedEvent
  pub label : ℤ → Text
  pub blank : DisplayedEvent

-- `s.find(p)`.
abbrev pub has_prefix : Text → Text → Bool
has_prefix [] s = true
has_prefix (x ∷ p) [] = false
has_prefix (x ∷ p) (y ∷ s) = eqb x y && has_prefix p s

unfoldable pub find : Text → Text → Option ℕ
find p [] = if is_empty p then some 0 else none
find p (y ∷ s) =
    let rest : Option ℕ = elim (find p s) [ none ↦ none | some i ↦ some (suc i) ] in
    if has_prefix p (y ∷ s) then some 0 else rest

-- The text between the first two quotes of `s`, empty where there are not two.
unfoldable pub quoted : Text → Text
quoted s = elim (index_of b'"' s) [
  | none ↦ []
  | some i ↦ elim (index_of b'"' (drop (suc i) s)) [ none ↦ [] | some j ↦ take j (drop (suc i) s) ]
]

-- The value behind a member's name, which is looked for without and then with a blank behind its colon.
unfoldable pub member : Text → Text → Text
unfolding find quoted
member name content =
    let plain = b'"' ∷ name ++ text "\":" in
    let blank = b'"' ∷ name ++ text "\": " in
    elim (find plain content) [
      | some i ↦ quoted (drop (i + length plain) content)
      | none ↦ elim (find blank content) [
        | none ↦ []
        | some i ↦ quoted (drop (i + length blank) content)
      ]
    ]

pub record Loaded : Type 0 where
  pub events : List DisplayedEvent
  pub local_avatars : Map Text
  pub pending : List PendingReaction
  pub calls : List Call

abbrev is_state : Text → Bool
is_state t =
    t == text "m.room.member"
    || t == text "m.room.topic"
    || t == text "m.room.name"
    || t == text "m.room.encryption"
    || t == text "m.room.create"
    || t == text "m.room.avatar"

unfoldable pub reaction : Text → Text → Text → Loaded → Loaded
reaction target key sender l = record l {
  pending = l.pending ++ record { target_id = target; emoji = key; sender = sender } ∷ [];
}

unfoldable pub event : DisplayedEvent → Loaded → Loaded
event d l = record l { events = l.events ++ d ∷ [] }

module _ (g : Engine) where
  -- The avatars that the page's member events carry.
  unfoldable pub learn_avatar : Raw → Loaded → Loaded
  learn_avatar r l =
      let url = g.extract r.fields.content_json (text "avatar_url") in
      if r.fields.event_type == text "m.room.member"
        && not (is_empty r.fields.content_json)
        && not (is_empty url)
        && not (is_empty r.state_key)
      then record l { local_avatars = insert r.state_key url l.local_avatars }
      else l

  unfoldable pub message : DisplayedEvent → Loaded → Loaded
  unfolding reaction event
  message d0 l =
      let d = g.convert d0 in
      if is_reaction d.event_type d.content_json
      then elim (g.relation d.content_json) [
        | none ↦ l
        | some (target, key) ↦ reaction target key d.sender_id l
      ]
      else if d.event_type == text "m.room.encrypted"
      then event (record d { body = text "[encrypted]"; msgtype = text "m.notice" }) l
      else event d l

  unfoldable pub plain_reaction : DisplayedEvent → Loaded → Loaded
  unfolding member reaction
  plain_reaction d l =
      let target = member (text "event_id") d.content_json in
      let key = member (text "key") d.content_json in
      if not (is_empty target) && not (is_empty key) then reaction target key d.sender_id l else l

  unfoldable pub state_row : Raw → Loaded → Loaded
  unfolding event
  state_row r l =
      let d = r.fields in
      let words = g.system_body d.event_type d.content_json r.state_key in
      if is_empty words
      then l
      else event
          (record g.blank {
            event_type = text "progressive.system";
            event_id = d.event_id;
            sender_name = text "system";
            origin_server_ts = d.origin_server_ts;
            body = words;
          })
          l

  unfoldable pub redact : DisplayedEvent → Loaded → Loaded
  redact d l =
      let target = g.extract d.content_json (text "redacts") in
      if is_empty target then l else record l { calls = l.calls ++ mark_deleted target ∷ [] }

  -- The body of the loop over the page.
  unfoldable pub history_event : Raw → Loaded → Loaded
  unfolding learn_avatar redact state_row plain_reaction message
  history_event r l0 =
      let d = r.fields in
      let l = learn_avatar r l0 in
      let t = d.event_type in
      if t == text "m.room.redaction" && not (is_empty d.content_json)
      then redact d l
      else if is_state t
      then state_row r l
      else if is_reaction t d.content_json
      then plain_reaction d l
      else if t == text "m.typing" || t == text "m.receipt" || t == text "m.fully_read"
      then l
      else if t == text "m.room.message" || t == text "m.room.encrypted"
      then message d l
      else l

  unfoldable pub history_events : List Raw → Loaded → Loaded
  unfolding history_event
  history_events [] l = l
  history_events (r ∷ rs) l = history_events rs (history_event r l)

abbrev pub reverse : List DisplayedEvent → List DisplayedEvent
reverse [] = []
reverse (d ∷ ds) = reverse ds ++ d ∷ []

unfoldable pub fill_avatar : Map Text → DisplayedEvent → DisplayedEvent
fill_avatar avatars d =
    if is_empty d.avatar_url && not (is_empty d.sender_id)
    then elim (lookup d.sender_id avatars) [ none ↦ d | some url ↦ record d { avatar_url = url } ]
    else d

-- Milliseconds of the day's beginning: division rounds towards zero.
abbrev pub day_ms : ℕ
day_ms = 86400000

abbrev pub times_day : ℤ → ℤ
times_day (pos n) = pos (n * day_ms)
times_day (negsuc n) = sub_ℕ 0 (suc n * day_ms)

unfoldable pub day_of : ℤ → ℤ
day_of ts = times_day (div_ℤ ts day_ms)

abbrev pub eqb_ℤ : ℤ → ℤ → Bool
eqb_ℤ a b = not (ltb_ℤ a b) && not (ltb_ℤ b a)

module _ (g : Engine) where
  unfoldable pub divider : ℤ → DisplayedEvent
  divider ts = record g.blank {
    is_date_divider = true;
    divider_label = g.label ts;
    origin_server_ts = ts;
  }

  -- `previous` is the day of the event before, 0 for none.
  unfoldable pub with_dividers : ℤ → List DisplayedEvent → List DisplayedEvent
  unfolding divider day_of
  with_dividers previous [] = []
  with_dividers previous (d ∷ ds) =
      let day = day_of d.origin_server_ts in
      let rest = with_dividers day ds in
      if ltb_ℤ (pos 0) previous && not (eqb_ℤ day previous)
      then divider d.origin_server_ts ∷ d ∷ rest
      else d ∷ rest

  abbrev pub edits_row : (Text → Bool) → DisplayedEvent → Bool
  edits_row has_row d = d.is_replace && has_row d.replace_target_id

  -- What the timeline is asked for, and what the callback is given: the number of events and where
  -- the next page begins.
  unfoldable pub load_history : (Text → Bool) → Page → List Call × ℕ × Text
  unfolding history_events fill_avatar with_dividers
  load_history has_row page =
      let l =
        history_events g page.chunk
          (record { events = []; local_avatars = []; pending = []; calls = [] }) in
      let all = map (fill_avatar l.local_avatars) (reverse l.events) in
      let edits = keep (edits_row has_row) all in
      let kept = keep (λ d. not (edits_row has_row d)) all in
      let next : Text = elim page.end as (λ x. Text) [
        | none ↦ elim page.start [ none ↦ [] | some s ↦ s ]
        | some e ↦
            if is_empty e then elim page.start as (λ x. Text) [ none ↦ [] | some s ↦ s ] else e
      ] in
      (
        l.calls
            ++ map
                (λ (d : DisplayedEvent).
                  update_body d.replace_target_id (d.body ++ text " (edited)"))
                edits
            ++ append_back_batch (with_dividers (pos 0) kept)
              ∷ map (λ (r : PendingReaction). add_reaction r) l.pending,
        length kept,
        next,
      )

  -- What `loadHistory` does in the end, `none` for nothing: the loader is gone or its token was dropped
  -- when the answer came. The page is `none` where the answer is an error or cannot be read.
  unfoldable pub history_answer :
      (Text → Bool) → Bool → Bool → Option Page → Option (List Call × ℕ × Text)
  unfolding load_history
  history_answer has_row logged_in alive page =
      let nothing : List Call × ℕ × Text = ([], 0, []) in
      if not logged_in
      then some nothing
      else if not alive
      then none
      else elim page [ none ↦ some nothing | some p ↦ some (load_history has_row p) ]
