-- ===== src/Layout/Reactions/Pills.antt =====
-- What computeReactionLayout of src/ui/timeline/timeline_layout.cpp shows, and where it puts it.
use progressive_desktop.Base.{
  ℕ, suc, ◌+◌, ◌-◌, ◌≡◌, refl, true, false, List, [], ◌∷◌, ◌++◌, arith, Text, text, ltb, length,
  if_rule, lt→ltb,
}
use progressive_desktop.Base.Int.{ℤ, pos, ◌+ℤ◌, ◌-ℤ◌}
use progressive_desktop.Layout.{bubble_padding}
use progressive_desktop.Layout.Reactions.{
  ReactionRow, more, stops, pill_y, place, compute_reaction_layout,
}

-- The rows show these reactions, in order: one pill for each, or, from some point on, one pill with
-- the number of those that are left.
pub data Shows (decimal : ℕ → Text) : List Text → List ReactionRow → Type 0 where
  all : Shows decimal [] []
  one :
      {t : Text} {ts : List Text} {r : ReactionRow} {rs : List ReactionRow}
      → r.caption ≡ t
      → r.is_overflow ≡ false
      → Shows decimal ts rs
      → Shows decimal (t ∷ ts) (r ∷ rs)
  rest :
      {t : Text} {ts : List Text} {r : ReactionRow}
      → r.caption ≡ text "+" ++ decimal (length (t ∷ ts))
      → r.is_overflow ≡ true
      → Shows decimal (t ∷ ts) (r ∷ [])

module _ (advance : Text → ℕ) (decimal : ℕ → Text) (left right : ℤ) (total : ℕ) where
  more-Shows :
      (t : Text) (ts : List Text) (y : ℤ) (shown : ℕ)
      → shown + length (t ∷ ts) ≡ total
      → Shows decimal (t ∷ ts) (more advance decimal left right total y shown)
  unfolding more
  more-Shows t ts y shown h =
      let left_over : total - shown ≡ length (t ∷ ts) = omega arith in
      let positive : ltb 0 (length (t ∷ ts)) ≡ true = lt→ltb _ _ (omega arith) in
      rw (left_over, positive) (rest refl refl)

  place-Shows :
      (ts : List Text) (rx ry : ℤ) (shown row : ℕ)
      → shown + length ts ≡ total
      → Shows decimal ts (place advance decimal left right total ts rx ry shown row)
  unfolding place
  place-Shows [] rx ry shown row h = all
  place-Shows (t ∷ ts) rx ry shown row h =
      if_rule (Shows decimal (t ∷ ts)) (stops advance decimal left right total t rx shown row)
        (λ _. more-Shows t ts (pill_y advance decimal left right total t rx ry shown) shown h)
        (λ _. one refl refl (place-Shows ts _ _ (suc shown) _ (omega arith)))

-- The pills show every reaction in order, or a first part of them and behind it the number of those
-- that are left: none is lost, none is shown twice.
pub compute_reaction_layout-Shows :
    (advance : Text → ℕ) (decimal : ℕ → Text) (reactions : List Text) (bubble_x base_y bubble_w : ℤ)
    → Shows decimal reactions
        (compute_reaction_layout advance decimal reactions bubble_x base_y bubble_w)
unfolding compute_reaction_layout
compute_reaction_layout-Shows advance decimal reactions bubble_x base_y bubble_w =
    let left = bubble_x +ℤ pos bubble_padding in
    place-Shows advance decimal left (bubble_x +ℤ bubble_w -ℤ pos bubble_padding) (length reactions)
      reactions left base_y 0 0 (omega arith)
