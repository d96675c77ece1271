-- ===== src/ThreadsDialog.antt =====
-- src/ui/dialogs/threads_dialog.cpp: the pages of the threads of a room, and the lines that are shown for them. The parsed
-- answers are arguments.
pub mod Pages
use progressive_desktop.Base.{
  ℕ, ◌+◌, Bool, true, false, Option, none, some, List, [], ◌∷◌, ◌++◌, map, Text, text, is_empty,
  ◌==◌, not, ◌&&◌, ◌||◌, if◌then◌else◌, length, take, eqb, ltb,
}
use progressive_desktop.Base.Int.{ℤ, pos, ltb_ℤ}
use progressive_desktop.Engine.{DisplayedEvent, ApiResult}

abbrev pub max_previews : ℕ
max_previews = 25

-- An entry of `chunk`: its event, where it has one, its replies and whether we took part.
pub record Thread : Type 0 where
  pub event_id : Option Text
  pub replies : ℕ
  pub participated : Bool

pub record Entry : Type 0 where
  pub event_id : Text
  pub replies : ℕ
  pub participated : Bool

unfoldable pub read_entries : List Thread → List Entry
read_entries [] = []
read_entries (t ∷ ts) =
    let rest = read_entries ts in
    elim t.event_id as (λ x. List Entry) [
      | none ↦ rest
      | some id ↦
          record { event_id = id; replies = t.replies; participated = t.participated } ∷ rest
    ]

-- What is known of the first message of a thread: its sender, its body and when it was sent.
pub record Root : Type 0 where
  pub sender : Text
  pub body : Text
  pub ts : ℤ

-- What the server's answer says of it, where it says anything.
pub record Remote : Type 0 where
  pub sender : Option Text
  pub body : Option Text
  pub ts : Option ℤ

pub record Line : Type 0 where
  pub event_id : Text
  pub words : Text
  pub has_preview : Bool

-- `local_row` is the row of the timeline, if it has the event.
pub record World : Type 0 where
  pub local_row : Text → Option DisplayedEvent
  pub remote : Text → Remote
  pub decimal : ℕ → Text
  pub stamp : ℤ → Text

module _ (w : World) where
  -- The copy of the timeline goes before the server's, where it has a sender.
  unfoldable pub find_root : Text → Root
  find_root id =
      let here : Root = elim (w.local_row id) [
        | none ↦ record { sender = []; body = []; ts = pos 0 }
        | some e ↦ record { sender = e.sender_name; body = take 80 e.body; ts = e.origin_server_ts }
      ] in
      let there = w.remote id in
      if is_empty here.sender
      then record {
        sender = elim there.sender as (λ x. Text) [ none ↦ here.sender | some t ↦ t ];
        body = elim there.body as (λ x. Text) [ none ↦ here.body | some t ↦ take 80 t ];
        ts = elim there.ts as (λ x. ℤ) [ none ↦ here.ts | some t ↦ t ];
      }
      else here

  unfoldable pub preview : Entry → Line
  unfolding find_root
  preview e =
      let r = find_root e.event_id in
      let sender = if is_empty r.sender then text "unknown" else r.sender in
      let body = if is_empty r.body then text "(no preview)" else r.body in
      record {
        event_id = e.event_id;
        words =
            take 20 sender
            ++ text ": "
            ++ body
            ++ (if ltb 0 e.replies
                then text " · "
                  ++ w.decimal e.replies
                  ++ text " repl"
                  ++ (if eqb e.replies 1 then text "y" else text "ies")
                else [])
            ++ (if e.participated then text " · You" else [])
            ++ (if ltb_ℤ (pos 0) r.ts then text " · " ++ w.stamp r.ts else []);
        has_preview = not (is_empty r.sender) || not (is_empty r.body);
      }

pub record Dialog : Type 0 where
  pub lines : List Line
  pub next_batch : Text
  pub more_shown : Bool
  pub status : Text

-- A reply: an error, no JSON, or the array of threads and the token of the next page, where they are there.
pub data Answer : Type 0 where
  failed : Text → Answer
  unparsed : Answer
  page : Option (List Thread) → Option Text → Answer

module _ (w : World) where
  unfoldable pub tell : Text → Dialog → Dialog
  tell words d = record d { status = words }

  -- The entries of a page, and then the lines of those that are previewed.
  unfoldable pub show_entries : List Entry → Dialog → Dialog
  unfolding tell preview
  show_entries [] d =
      tell (if is_empty d.lines then text "No threads found." else text "No more threads.") d
  show_entries (e ∷ es) d =
      record (tell
        (text "Found "
          ++ w.decimal (length d.lines + length (e ∷ es))
          ++ text " thread(s). Click one to open it.")
        d) { lines = d.lines ++ map (preview w) (take max_previews (e ∷ es)) }

  unfoldable pub threads_loaded : Answer → Dialog → Dialog
  unfolding tell read_entries show_entries
  threads_loaded (failed message) d = tell (text "Error: " ++ message) d
  threads_loaded unparsed d = tell (text "Failed to parse threads response.") d
  threads_loaded (page none token) d = tell (text "No threads found.") d
  threads_loaded (page (some chunk) token) d =
      let next : Text = elim token [ none ↦ [] | some t ↦ t ] in
      show_entries (read_entries chunk)
        (record d { next_batch = next; more_shown = not (is_empty next) })

  -- `loadThreads`: the room and the token that are asked for, unless no room is open.
  unfoldable pub load_threads : Text → Dialog → Dialog × Option (Text × Text)
  unfolding tell
  load_threads room d =
      if is_empty room
      then (tell (text "No room selected — open a room first.") d, none)
      else (tell (text "Loading threads...") d, some (room, d.next_batch))

  unfoldable pub on_refresh_clicked : Text → Dialog → Dialog × Option (Text × Text)
  unfolding load_threads
  on_refresh_clicked room d = load_threads room (record d { next_batch = []; lines = [] })
