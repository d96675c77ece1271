-- ===== src/Directory.antt =====
-- src/ui/dialogs/room_directory_dialog.cpp: the reading of a page of public rooms, which scans the text of the
-- answer, and the list that it fills. `std::string::npos` is none; npos + 1 is 0.
pub mod Split
use progressive_desktop.Base.{
  ℕ, zero, suc, ◌+◌, ◌-◌, ◌*◌, Bool, true, false, Option, none, some, List, [], ◌∷◌, ◌++◌, map,
  Text, text, is_empty, not, ◌&&◌, ◌||◌, if◌then◌else◌, eqb, leb, ltb, length, take, drop, index_of,
}
use progressive_desktop.Engine.{ApiResult}
use progressive_desktop.History.{find}

-- `s.find(c, pos)`.
unfoldable pub find_unit : ℕ → ℕ → Text → Option ℕ
find_unit c pos s = elim (index_of c (drop pos s)) [ none ↦ none | some i ↦ some (pos + i) ]

unfoldable pub find_behind : ℕ → Option ℕ → Text → Option ℕ
unfolding find_unit
find_behind c none s = find_unit c 0 s
find_behind c (some i) s = find_unit c (suc i) s

-- `find` from a position that may be npos.
unfoldable pub find_at : ℕ → Option ℕ → Text → Option ℕ
unfolding find_unit
find_at c none s = none
find_at c (some i) s = find_unit c i s

-- The new token, where the answer has one.
unfoldable pub read_next_batch : Text → Text → Text
unfolding find_at find_behind
read_next_batch body old = elim (find (text "\"next_batch\"") body) [
  | none ↦ []
  | some at ↦
      let q1 = find_behind b'"' (find_at b':' (some at) body) body in
      elim q1 as (λ x. Text) [
        | none ↦ old
        | some i ↦ elim (find_unit b'"' (suc i) body) [
          | none ↦ old
          | some j ↦ take (j - suc i) (drop (suc i) body)
        ]
      ]
]

-- How many units of the text belong to an object of which `depth` braces are open: the inner loop.
unfoldable pub object_length : ℕ → Text → ℕ
object_length zero xs = 0
object_length (suc depth) [] = 0
object_length (suc depth) (c ∷ cs) = suc (
    object_length (if eqb c b'{' then suc (suc depth) else if eqb c b'}' then depth else suc depth)
      cs)

-- The outer loop over the text of the array: the objects in it. None means that the fuel ran out.
unfoldable pub split_objects : ℕ → Text → Option (List Text)
unfolding object_length
split_objects fuel [] = some []
split_objects zero (x ∷ xs) = none
split_objects (suc fuel) (x ∷ xs) = elim (index_of b'{' (x ∷ xs)) [
  | none ↦ some []
  | some i ↦
      let from = drop i (x ∷ xs) in
      let size = suc (object_length 1 (drop 1 from)) in
      elim (split_objects fuel (drop size from)) [
        | none ↦ none
        | some objects ↦ some (take size from ∷ objects)
      ]
]

-- The text between the brackets of `chunk`; none where one of them is missing.
unfoldable pub chunk_text : Text → ℕ → Option Text
unfolding find_at
chunk_text body chunk_pos =
    let start = find_at b'[' (some chunk_pos) body in
    elim start [
      | none ↦ none
      | some i ↦ elim (find_unit b']' i body) [
        | none ↦ none
        | some j ↦ some (take (j - suc i) (drop (suc i) body))
      ]
    ]

unfoldable pub is_digit : ℕ → Bool
is_digit c = leb b'0' c && leb c b'9'

-- `atoi` at a digit.
unfoldable pub digits_value : ℕ → Text → ℕ
unfolding is_digit
digits_value acc [] = acc
digits_value acc (c ∷ cs) =
    let more = digits_value (acc * 10 + (c - b'0')) cs in if is_digit c then more else acc

unfoldable pub skip_to_digit : Text → Text
unfolding is_digit
skip_to_digit [] = []
skip_to_digit (c ∷ cs) = if is_digit c then c ∷ cs else skip_to_digit cs

-- The number of members; none where `atoi` is called outside of the text.
unfoldable pub read_members : Text → Option ℕ
unfolding find_at digits_value skip_to_digit
read_members obj = elim (find (text "\"num_joined_members\"") obj) [
  | none ↦ some 0
  | some at ↦ elim (find_at b':' (some at) obj) [
    | none ↦ none
    | some i ↦ some (digits_value 0 (skip_to_digit (drop i obj)))
  ]
]

pub record Entry : Type 0 where
  pub room_id : Text
  pub alias : Text
  pub name : Text
  pub members : Option ℕ
  pub topic : Text

abbrev or_else : Text → Text → Text
or_else a b = if is_empty a then b else a

pub record Dialog : Type 0 where
  pub results : List Entry
  pub next_batch : Text
  pub load_more_enabled : Bool
  pub status : Text
  pub joined_room_id : Text
  pub joined_room_name : Text
  pub accepted : Bool

-- `value` is the engine's `parseJsonStringValue`, `decimal` is `QString::number`.
module _ (value : Text → Text → Text) (decimal : ℕ → Text) where
  unfoldable pub read_entry : Text → Entry
  unfolding read_members
  read_entry obj =
      let room_id = value obj (text "room_id") in
      let alias = value obj (text "canonical_alias") in
      let topic = value obj (text "topic") in
      record {
        room_id = room_id;
        alias = or_else alias room_id;
        name = or_else (value obj (text "name")) (or_else alias room_id);
        members = read_members obj;
        topic = if ltb 80 (length topic) then take 80 topic ++ text "..." else topic;
      }

  unfoldable pub tell : Text → Dialog → Dialog
  tell words d = record d { status = words }

  unfoldable pub show_objects : Text → List Text → Dialog → Dialog
  unfolding tell read_entry
  show_objects from objects d =
      tell (text "Found " ++ decimal (length objects) ++ text " room(s). Double-click to join.")
        (record d { results = (if is_empty from then [] else d.results) ++ map read_entry objects })

  unfoldable pub show_chunk : Text → Option Text → Dialog → Dialog
  unfolding tell show_objects
  show_chunk from none d = tell (text "Parse error.") d
  show_chunk from (some chunk) d = elim (split_objects (length chunk) chunk) [
    | none ↦ d
    | some objects ↦ show_objects from objects d
  ]

  -- The reply to a search that began at `from`.
  unfoldable pub search_answer : Text → ApiResult → Dialog → Dialog
  unfolding tell show_chunk read_next_batch chunk_text
  search_answer from r d =
      let body = r.content in
      let batch = read_next_batch body d.next_batch in
      let d' = record d { next_batch = batch; load_more_enabled = not (is_empty batch) } in
      if not r.ok
      then tell (text "Error: " ++ r.message) d
      else elim (find (text "\"chunk\"") body) [
        | none ↦ tell (text "No rooms found.") d'
        | some at ↦ show_chunk from (chunk_text body at) d'
      ]

  -- `onSearchClicked`, up to the reply: where the search begins.
  unfoldable pub on_search_clicked : Dialog → Dialog × Text
  unfolding tell
  on_search_clicked d =
      (tell (text "Searching...") (record d { next_batch = []; results = [] }), [])

  unfoldable pub on_load_more_clicked : Dialog → Dialog × Text
  unfolding tell
  on_load_more_clicked d = (tell (text "Searching...") d, d.next_batch)

  -- `onJoinClicked`, with its reply.
  unfoldable pub on_join_clicked : Entry → ApiResult → Dialog → Dialog
  unfolding tell
  on_join_clicked e r d =
      if r.ok
      then record (tell (text "Joined: " ++ e.alias) d) {
        joined_room_id = r.content;
        joined_room_name = e.name;
        accepted = true;
      }
      else tell (text "Failed: " ++ r.message) d
