-- ===== src/LogViewer.antt =====
-- src/ui/dialogs/log_viewer_dialog.cpp: the list of log lines, which a timer extends and a change of the filter builds anew.
-- The ring of lines is the engine's; each line has a number of its own.
pub mod Refresh
use progressive_desktop.Base.{
  ℕ, ◌+◌, Bool, true, false, List, [], ◌∷◌, ◌++◌, map, Text, text, is_empty, not, ◌&&◌, ◌||◌,
  if◌then◌else◌, eqb, ltb, max, length, keep,
}

-- `LogChannel`, in the order of the boxes.
pub data LogChannel : Type 0 where
  gui sync e2ee net mem dbg : LogChannel

pub record Line : Type 0 where
  pub seq : ℕ
  pub channel : LogChannel
  pub words : Text

-- The set of the numbers that were met, and the lines that are listed.
pub record Viewer : Type 0 where
  pub shown_seqs : List ℕ
  pub lines : List Line

abbrev pub has_seq : ℕ → List ℕ → Bool
has_seq n [] = false
has_seq n (s ∷ ss) = eqb s n || has_seq n ss

unfoldable pub insert_seq : ℕ → List ℕ → List ℕ
insert_seq n ss = if has_seq n ss then ss else n ∷ ss

abbrev pub max_seq : List ℕ → ℕ
max_seq [] = 0
max_seq (s ∷ ss) = max s (max_seq ss)

-- Numbers that can no longer be in the ring are forgotten.
unfoldable pub prune : List ℕ → List ℕ
prune ss = if ltb 6000 (length ss) then keep (λ s. not (ltb (s + 4000) (max_seq ss))) ss else ss

-- `on` says which boxes are checked, `filter` is the text typed, in small letters; `lower` is `QString::toLower`, `has_part`
-- is `contains`.
module _ (lower : Text → Text) (has_part : Text → Text → Bool) (on : LogChannel → Bool)
    (filter : Text) where
  unfoldable pub passes : Line → Bool
  passes l = on l.channel && (is_empty filter || has_part filter (lower l.words))

  unfoldable pub list_line : Line → List Line → List Line
  unfolding passes
  list_line l ls = if passes l then ls ++ l ∷ [] else ls

  unfoldable pub refresh_line : Line → Viewer → Viewer
  unfolding list_line insert_seq
  refresh_line l v =
      if has_seq l.seq v.shown_seqs
      then v
      else record { shown_seqs = insert_seq l.seq v.shown_seqs; lines = list_line l v.lines }

  unfoldable pub refresh_lines : List Line → Viewer → Viewer
  unfolding refresh_line
  refresh_lines [] v = v
  refresh_lines (l ∷ ls) v = refresh_lines ls (refresh_line l v)

  unfoldable pub refresh : List Line → Viewer → Viewer
  unfolding refresh_lines prune
  refresh ring v = record (refresh_lines ring v) {
    shown_seqs = prune (refresh_lines ring v).shown_seqs;
  }

  unfoldable pub rebuild_lines : List Line → Viewer → Viewer
  unfolding list_line insert_seq
  rebuild_lines [] v = v
  rebuild_lines (l ∷ ls) v =
      rebuild_lines ls
        (record { shown_seqs = insert_seq l.seq v.shown_seqs; lines = list_line l v.lines })

  unfoldable pub rebuild : List Line → Viewer
  unfolding rebuild_lines
  rebuild ring = rebuild_lines ring (record { shown_seqs = []; lines = [] })

-- `onCopy`: the lines that are selected, or else all of them; `name` is `logChannelName`.
unfoldable pub item_text : (LogChannel → Text) → Line → Text
item_text name l = text "[" ++ name l.channel ++ text "] " ++ l.words

unfoldable pub join : List Text → Text
join [] = []
join (t ∷ []) = t
join (t ∷ u ∷ ts) = t ++ text "\n" ++ join (u ∷ ts)

unfoldable pub on_copy : (LogChannel → Text) → List Line → List Line → Text
unfolding item_text join
on_copy name selected listed =
    join (map (item_text name) (if is_empty selected then listed else selected))
