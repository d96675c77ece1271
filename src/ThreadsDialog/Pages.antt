-- ===== src/ThreadsDialog/Pages.antt =====
-- Which threads src/ui/dialogs/threads_dialog.cpp lists after a page came.
use progressive_desktop.Base.{
  ℕ, zero, suc, Option-cases, inl, inr, ◌≤◌, ◌≡◌, refl, ap, Option, none, some, List, [], ◌∷◌, ◌++◌,
  map, arith, Text, is_empty, not, length, take,
}
use mathlib.Core.List.{map-append, append-nil}
use progressive_desktop.ThreadsDialog.{
  Thread, Entry, read_entries, World, Line, preview, Dialog, page, show_entries, threads_loaded,
  tell,
}

abbrev pub ids : List Line → List Text
ids ls = map (λ (l : Line). l.event_id) ls

abbrev pub events : List Thread → List Text
events [] = []
events (t ∷ ts) = elim t.event_id as (λ x. List Text) [
  | none ↦ events ts
  | some id ↦ id ∷ events ts
]

module _ (w : World) where
  ids_of :
      (n : ℕ) (ts : List Thread)
      → length ts ≤ n
      → ids (map (preview w) (take n (read_entries ts))) ≡ events ts
  unfolding read_entries preview
  ids_of n [] h = take_none n
    where
      take_none : (n : ℕ) → ids (map (preview w) (take n [])) ≡ []
      take_none zero = refl
      take_none (suc n) = refl
  ids_of zero (t ∷ ts) h = absurd (omega (arith, h))
  ids_of (suc n) (t ∷ ts) h = elim (Option-cases t.event_id) [
    | inl e ↦ rw (e, read_entries) (ids_of (suc n) ts (omega (arith, h)))
    | inr (id, e) ↦ rw (e, read_entries) (ap (id ∷◌) (ids_of n ts (omega (arith, h))))
  ]

  show_entries-ids :
      (es : List Entry) (d : Dialog)
      → (ids (show_entries w es d).lines ≡ ids d.lines ++ ids (map (preview w) (take 25 es)))
        × ((show_entries w es d).next_batch ≡ d.next_batch)
        × ((show_entries w es d).more_shown ≡ d.more_shown)
  unfolding show_entries tell
  show_entries-ids [] d = (rw (append-nil (ids d.lines)) refl, refl, refl)
  show_entries-ids (e ∷ es) d = (map-append (λ (l : Line). l.event_id) d.lines _, refl, refl)

  -- A page of at most 25 threads adds a line for each thread that has an event, in the order of the page, behind
  -- the lines that are there, and the button for more shows exactly where the page has a token.
  pub threads_loaded-ids :
      (chunk : List Thread) (token : Option Text) (d : Dialog)
      → length chunk ≤ 25
      → let d' = threads_loaded w (page (some chunk) token) d in
        (ids d'.lines ≡ ids d.lines ++ events chunk)
        × (d'.next_batch ≡ elim token as (λ x. Text) [ none ↦ [] | some t ↦ t ])
        × (d'.more_shown ≡ not (is_empty d'.next_batch))
  unfolding threads_loaded
  threads_loaded-ids chunk token d h =
      let (lines, batch, more) = show_entries-ids (read_entries chunk) _ in
      (rw (lines, ids_of 25 chunk h) refl, batch, rw (more, batch) refl)
