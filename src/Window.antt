-- ===== src/Window.antt =====
-- src/ui/main_window.cpp: the keys of the main window, the clicks of the timeline that it answers itself, the list of accounts
-- and the label of the sync. A current row is none where Qt has the row -1.
pub mod Keys
pub mod Hearts
use progressive_desktop.Base.{
  ℕ, zero, suc, ◌+◌, Bool, true, false, Option, none, some, List, [], ◌∷◌, ◌++◌, Text, text,
  is_empty, ◌==◌, not, ◌&&◌, ◌||◌, if◌then◌else◌, ltb, leb, eqb, take, index_of,
}
use progressive_desktop.Engine.{DisplayedEvent}

-- `digit n` is the key of n + 1, up to 9.
pub data Key : Type 0 where
  down up key_r key_k escape key_l tab f11 f12 other_key : Key
  digit : ℕ → Key

pub record KeyEvent : Type 0 where
  pub key : Key
  pub alt : Bool
  pub ctrl : Bool
  pub shift : Bool

pub data Action : Type 0 where
  redact_event : Text → Text → Action
  send_reaction : Text → Text → Text → Action
  reply_in_thread : Text → Text → Action
  open_room_switcher : Action
  close_thread_view : Action
  clear_selection : Action
  focus_rooms : Action
  switch_account : ℕ → Action
  add_account : Action
  logout : Action
  full_screen : Action
  dump : Action

-- The rows that are current in the lists, and how many rows they have.
pub record Window : Type 0 where
  pub room_row : Option ℕ
  pub rooms : ℕ
  pub timeline_row : Option ℕ
  pub messages : ℕ
  pub account_row : Option ℕ
  pub accounts : ℕ

-- What the window asks of the others: `event_id` is that of a row, `find` the row's event, if the timeline has one for an id,
-- and `my_reaction_id` our own reaction to a message, empty where there is none.
pub record World : Type 0 where
  pub has_client : Bool
  pub has_thread_handler : Bool
  pub current_room : Text
  pub user_id : Text
  pub event_id : ℕ → Text
  pub find : Text → Option DisplayedEvent
  pub my_reaction_id : Text → Text → Text

unfoldable pub row_below : ℕ → Option ℕ → Option ℕ
row_below count none = if ltb 0 count then some 0 else none
row_below count (some row) = if ltb (suc row) count then some (suc row) else some row

unfoldable pub row_above : Option ℕ → Option ℕ
row_above none = none
row_above (some zero) = some zero
row_above (some (suc row)) = some row

unfoldable pub row_at : ℕ → ℕ → Option ℕ → Option ℕ
row_at n count old = if ltb n count then some n else old

-- The account behind the current one, the first one behind the last.
unfoldable pub next_account : ℕ → Option ℕ → ℕ
next_account accounts none = 0
next_account accounts (some row) = if leb accounts (suc row) then 0 else suc row

-- The red heart in UTF-8.
unfoldable pub heart : Text
heart = 226 ∷ 157 ∷ 164 ∷ 239 ∷ 184 ∷ 143 ∷ []

module _ (w : World) where
  -- A reaction that is there is taken back, another one is sent.
  unfoldable pub toggle : Text → Text → List Action
  toggle id emoji =
      let existing = w.my_reaction_id id emoji in
      if is_empty existing
      then send_reaction w.current_room id emoji ∷ []
      else redact_event w.current_room existing ∷ []

  unfoldable pub is_mine : Text → Bool
  is_mine id = elim (w.find id) [ none ↦ false | some e ↦ e.sender_id == w.user_id ]

  -- The words of a pill are an emoji, a blank and a number.
  unfoldable pub first_section : Text → Text
  first_section t = elim (index_of b' ' t) [ none ↦ t | some i ↦ take i t ]

  unfoldable pub reaction_clicked : Text → Text → List Action
  unfolding toggle first_section
  reaction_clicked id caption =
      let act = toggle id (first_section caption) in
      if is_empty w.current_room || not w.has_client then [] else act

  unfoldable pub double_clicked : Text → List Action
  unfolding toggle is_mine heart
  double_clicked id =
      let act = if is_mine id then [] else toggle id heart in
      if is_empty w.current_room || not w.has_client then [] else act

  unfoldable pub selected_id : Window → Text
  selected_id s = elim s.timeline_row [ none ↦ [] | some row ↦ w.event_id row ]

  unfoldable pub quick_reply : Window → List Action
  unfolding selected_id
  quick_reply s =
      let id = selected_id s in
      if is_empty id || is_empty w.current_room || not w.has_thread_handler
      then []
      else reply_in_thread id w.current_room ∷ []

  -- Unlike a double click it goes on without a room.
  unfoldable pub quick_heart : Window → List Action
  unfolding selected_id toggle is_mine heart
  quick_heart s =
      let id = selected_id s in
      if is_empty id || not w.has_client then [] else if is_mine id then [] else toggle id heart

  unfoldable pub next_tab : Window → Window × List Action
  unfolding next_account
  next_tab s =
      let next = next_account s.accounts s.account_row in
      if leb s.accounts 1
      then (s, [])
      else (record s { account_row = some next }, switch_account next ∷ [])

  -- `keyPressEvent` for a key and the keys Alt, Control and Shift; the last part says whether the event was accepted here.
  unfoldable pub on_key : Key → Bool → Bool → Bool → Window → Window × List Action × Bool
  unfolding row_below row_above row_at quick_reply quick_heart next_tab
  on_key down alt ctrl shift s =
      if alt
      then (record s { room_row = row_below s.rooms s.room_row }, [], true)
      else if ctrl
      then (record s { timeline_row = row_below s.messages s.timeline_row }, [], true)
      else (s, [], false)
  on_key up alt ctrl shift s =
      if alt
      then (record s { room_row = row_above s.room_row }, [], true)
      else if ctrl
      then (record s { timeline_row = row_above s.timeline_row }, [], true)
      else (s, [], false)
  on_key (digit n) alt ctrl shift s =
      if ctrl
      then (record s { room_row = row_at n s.rooms s.room_row }, [], true)
      else (s, [], false)
  on_key key_r alt ctrl shift s =
      if ctrl && not shift then (s, quick_reply s, true) else (s, [], false)
  on_key key_k alt ctrl shift s =
      if not ctrl
      then (s, [], false)
      else if shift
      then (s, quick_heart s, true)
      else (s, open_room_switcher ∷ [], true)
  on_key escape alt ctrl shift s = (s, close_thread_view ∷ clear_selection ∷ [], true)
  on_key key_l alt ctrl shift s = if ctrl then (s, focus_rooms ∷ [], true) else (s, [], false)
  on_key tab alt ctrl shift s =
      if ctrl then ((next_tab s).0, (next_tab s).1, true) else (s, [], false)
  on_key f11 alt ctrl shift s = (s, full_screen ∷ [], true)
  on_key f12 alt ctrl shift s = (s, dump ∷ [], true)
  on_key other_key alt ctrl shift s = (s, [], false)

  unfoldable pub key_press : KeyEvent → Window → Window × List Action × Bool
  unfolding on_key
  key_press e s = on_key e.key e.alt e.ctrl e.shift s

  -- Below the accounts the list has a separator, the entry that adds one and the one that logs out.
  unfoldable pub account_chosen : ℕ → ℕ → Window → Window × List Action
  account_chosen index current s =
      let back = record s { account_row = some current } in
      if ltb index s.accounts
      then (s, switch_account index ∷ [])
      else if eqb index (s.accounts + 1)
      then (back, add_account ∷ [])
      else if eqb index (s.accounts + 2)
      then (back, logout ∷ [])
      else (s, [])

-- `SyncEngineState`.
pub data SyncEngineState : Type 0 where
  stopped initial_sync running backoff paused : SyncEngineState

unfoldable pub state_words : SyncEngineState → Text
state_words stopped = text "stopped"
state_words initial_sync = text "downloading chats..."
state_words running = text "synced"
state_words backoff = text "reconnecting..."
state_words paused = text "paused"

unfoldable pub on_sync_state : (ℕ → Text) → SyncEngineState → ℕ → ℕ → Text
unfolding state_words
on_sync_state decimal state joined events =
    state_words state
    ++ text " | "
    ++ decimal joined
    ++ text " chats / "
    ++ decimal events
    ++ text " events"
