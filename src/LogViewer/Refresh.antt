-- ===== src/LogViewer/Refresh.antt =====
-- What the timer of src/ui/dialogs/log_viewer_dialog.cpp adds to the list.
use progressive_desktop.Base.{
  ℕ, ◌≡◌, refl, ◌∙◌, ap, Bool, true, List, [], ◌∷◌, ◌++◌, arith, Text, keep, Bool-cases, inl, inr,
  All,
}
use mathlib.Core.List.{append_assoc, append-nil}
use progressive_desktop.LogViewer.{
  LogChannel, Line, Viewer, has_seq, insert_seq, passes, list_line, refresh_line, refresh_lines,
  refresh, rebuild_lines, rebuild,
}

-- The numbers of the lines are among the ones that were met.
abbrev pub AllMet : List Line → List ℕ → Type 0
AllMet ls ss = All (λ (l : Line). has_seq l.seq ss ≡ true) ls

insert_seq-has : (n : ℕ) (ss : List ℕ) → has_seq n (insert_seq n ss) ≡ true
unfolding insert_seq
insert_seq-has n ss = ground arith

insert_seq_keeps :
    (n k : ℕ) (ss : List ℕ) → has_seq k ss ≡ true → has_seq k (insert_seq n ss) ≡ true
unfolding insert_seq
insert_seq_keeps n k ss h = ground (arith, h)

module _ (lower : Text → Text) (has_part : Text → Text → Bool) (on : LogChannel → Bool)
    (filter : Text) where
  rebuild_lines_keeps :
      (k : ℕ) (ls : List Line) (v : Viewer)
      → has_seq k v.shown_seqs ≡ true
      → has_seq k (rebuild_lines lower has_part on filter ls v).shown_seqs ≡ true
  unfolding rebuild_lines
  rebuild_lines_keeps k [] v h = h
  rebuild_lines_keeps k (l ∷ ls) v h =
      rebuild_lines_keeps k ls _ (insert_seq_keeps l.seq k v.shown_seqs h)

  rebuild_lines-AllMet :
      (ls : List Line) (v : Viewer)
      → AllMet ls (rebuild_lines lower has_part on filter ls v).shown_seqs
  unfolding rebuild_lines
  rebuild_lines-AllMet [] v = tt
  rebuild_lines-AllMet (l ∷ ls) v = (
    rebuild_lines_keeps l.seq ls _ (insert_seq-has l.seq v.shown_seqs),
    rebuild_lines-AllMet ls _,
  )

  rebuild_lines-passes :
      (ls : List Line) (v : Viewer)
      → (rebuild_lines lower has_part on filter ls v).lines
        ≡ v.lines ++ keep (passes lower has_part on filter) ls
  unfolding rebuild_lines list_line
  rebuild_lines-passes [] v = rw (append-nil v.lines) refl
  rebuild_lines-passes (l ∷ ls) v =
      rebuild_lines-passes ls _ ∙ elim (Bool-cases (passes lower has_part on filter l)) [
        | inl h ↦
            rw (h, list_line)
              (append_assoc v.lines (l ∷ []) (keep (passes lower has_part on filter) ls))
        | inr h ↦ rw (h, list_line) refl
      ]

  refresh_lines_rests :
      (ls : List Line) (v : Viewer)
      → AllMet ls v.shown_seqs
      → refresh_lines lower has_part on filter ls v ≡ v
  unfolding refresh_lines refresh_line
  refresh_lines_rests [] v h = refl
  refresh_lines_rests (l ∷ ls) v (h, hs) = rw h (refresh_lines_rests ls v hs)

  -- A change of the filter lists exactly those lines of the ring that pass it, in their order, and the timer that
  -- follows adds none of them a second time.
  pub refresh-rebuild :
      (ring : List Line)
      → ((rebuild lower has_part on filter ring).lines
          ≡ keep (passes lower has_part on filter) ring)
        × ((refresh lower has_part on filter ring (rebuild lower has_part on filter ring)).lines
            ≡ (rebuild lower has_part on filter ring).lines)
  unfolding rebuild refresh
  refresh-rebuild ring =
      let v : Viewer = record { shown_seqs = []; lines = [] } in
      (
        rebuild_lines-passes ring v,
        ap (λ (x : Viewer). x.lines)
            (refresh_lines_rests ring (rebuild_lines lower has_part on filter ring v)
              (rebuild_lines-AllMet ring v)),
      )
