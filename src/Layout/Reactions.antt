-- ===== src/Layout/Reactions.antt =====
-- computeReactionLayout of src/ui/timeline/timeline_layout.cpp: the pills under a bubble.
pub mod Pills
pub mod Geometry
use progressive_desktop.Base.{
  ℕ, suc, ◌+◌, ◌-◌, ◌≤◌, ◌<◌, ◌≡◌, Bool, true, false, List, [], ◌∷◌, ◌++◌, Text, text, ◌&&◌,
  if◌then◌else◌, ltb, leb, eqb, length,
}
use progressive_desktop.Base.Int.{ℤ, pos, ◌+ℤ◌, ◌-ℤ◌, ltb_ℤ}
use progressive_desktop.Layout.{bubble_padding, reaction_pill_h}

abbrev pub reaction_pill_pad : ℕ
reaction_pill_pad = 16

abbrev pub reaction_pill_gap : ℕ
reaction_pill_gap = 3

abbrev pub reaction_max_rows : ℕ
reaction_max_rows = 2

-- `QRect`, with the fields of `ReactionRow`.
pub record ReactionRow : Type 0 where
  pub x : ℤ
  pub y : ℤ
  pub w : ℤ
  pub h : ℕ
  pub caption : Text
  pub is_overflow : Bool

-- `advance` is `QFontMetrics::horizontalAdvance`, `decimal` is `QString::number`; `left` and
-- `right` are the first position of a row and the end of the bubble's inside; `total` is the number
-- of reactions.
module _ (advance : Text → ℕ) (decimal : ℕ → Text) (left right : ℤ) (total : ℕ) where
  unfoldable pub pill_w : Text → ℤ
  pill_w t = pos (advance t + reaction_pill_pad)

  pill : ℤ → ℤ → ℤ → Text → ReactionRow
  pill x y w t = record {
    x = x;
    y = y;
    w = w;
    h = reaction_pill_h;
    caption = t;
    is_overflow = false;
  }

  -- The pill for the reactions that find no row.
  more : ℤ → ℕ → List ReactionRow
  unfolding pill_w
  more y shown =
      let caption = text "+" ++ decimal (total - shown) in
      if ltb 0 (total - shown)
      then record {
        x = left;
        y = y;
        w = pill_w caption;
        h = reaction_pill_h;
        caption = caption;
        is_overflow = true;
      }
        ∷ []
      else []

  -- The pill does not fit behind those of its row.
  wraps : Text → ℤ → ℕ → Bool
  unfolding pill_w
  wraps t rx shown = ltb_ℤ right (rx +ℤ pill_w t) && ltb 0 shown

  -- The new row would be one too many.
  stops : Text → ℤ → ℕ → ℕ → Bool
  unfolding wraps
  stops t rx shown row = wraps t rx shown && leb reaction_max_rows (suc row)

  -- Where the pill goes, and in which row.
  pill_x : Text → ℤ → ℕ → ℤ
  unfolding wraps
  pill_x t rx shown = if wraps t rx shown then left else rx

  pill_y : Text → ℤ → ℤ → ℕ → ℤ
  unfolding wraps
  pill_y t rx ry shown =
      if wraps t rx shown then ry +ℤ pos (reaction_pill_h + reaction_pill_gap) else ry

  pill_row : Text → ℤ → ℕ → ℕ → ℕ
  unfolding wraps
  pill_row t rx shown row = if wraps t rx shown then suc row else row

  -- Only the first pill of all is cut to the width of the bubble.
  clipped_w : Text → ℤ → ℕ → ℤ
  unfolding pill_w pill_x
  clipped_w t rx shown =
      let x = pill_x t rx shown in
      if ltb_ℤ right (x +ℤ pill_w t) && eqb shown 0 then right -ℤ x else pill_w t

  -- The loop, with the position of the next pill, the number shown and the row.
  unfoldable pub place : List Text → ℤ → ℤ → ℕ → ℕ → List ReactionRow
  unfolding pill more stops pill_x pill_y pill_row clipped_w
  place [] rx ry shown row = []
  place (t ∷ ts) rx ry shown row =
      let x = pill_x t rx shown in
      let y = pill_y t rx ry shown in
      let w = clipped_w t rx shown in
      let rest =
        place ts (x +ℤ w +ℤ pos reaction_pill_gap) y (suc shown) (pill_row t rx shown row) in
      if stops t rx shown row then more y shown else pill x y w t ∷ rest

unfoldable pub compute_reaction_layout :
    (Text → ℕ) → (ℕ → Text) → List Text → ℤ → ℤ → ℤ → List ReactionRow
unfolding place
compute_reaction_layout advance decimal reactions bubble_x base_y bubble_w =
    let left = bubble_x +ℤ pos bubble_padding in
    let right = bubble_x +ℤ bubble_w -ℤ pos bubble_padding in
    place advance decimal left right (length reactions) reactions left base_y 0 0
