-- ===== src/Layout/Reactions/Geometry.antt =====
-- Where computeReactionLayout of src/ui/timeline/timeline_layout.cpp puts the pills.
use progressive_desktop.Base.{
  ℕ, zero, suc, ◌+◌, ◌-◌, ◌*◌, ◌≤◌, ◌≡◌, refl, ◌⊎◌, inl, inr, true, false, some, List, [], ◌∷◌,
  arith, Text, if◌then◌else◌, ltb, length, All, Bool-cases, get_elem?, if_rule,
}
use progressive_desktop.Base.Int.{ℤ, pos, ◌+ℤ◌, ◌-ℤ◌, ◌≤ℤ◌, +ℤ_parts, -ℤ_parts, int_laws}
use progressive_desktop.Layout.{reaction_height, bubble_padding}
use progressive_desktop.Layout.Reactions.{
  ReactionRow, pill_w, pill, more, wraps, stops, pill_x, pill_y, pill_row, clipped_w, place,
  compute_reaction_layout, reaction_pill_gap, reaction_pill_pad,
}
use progressive_desktop.Layout.Bubble.{reaction_height-le}

-- A pill stands in the first or the second row, the pill with the number in the third.
abbrev pub IsPlaced : ℤ → ReactionRow → Type 0
IsPlaced base r =
    if r.is_overflow then r.y ≡ base +ℤ pos 46 else (r.y ≡ base) ⊎ (r.y ≡ base +ℤ pos 23)

module _ (advance : Text → ℕ) (decimal : ℕ → Text) (left right : ℤ) (total : ℕ) (base : ℤ) where
  row_y : ℕ → ℤ
  row_y row = base +ℤ pos (23 * row)

  pill_y-row_y :
      (t : Text) (rx ry : ℤ) (shown row : ℕ)
      → ry ≡ row_y row
      → pill_y advance decimal left right total t rx ry shown
        ≡ row_y (pill_row advance decimal left right total t rx shown row)
  unfolding pill_y pill_row row_y
  pill_y-row_y t rx ry shown row e =
      elim (Bool-cases (wraps advance decimal left right total t rx shown)) [
        | inl h ↦ rw (h, e) (omega int_laws)
        | inr h ↦ rw h e
      ]

  -- With the third row the loop stops, so a pill stands in the first two.
  row_of_pill :
      (t : Text) (rx : ℤ) (shown row : ℕ)
      → row ≤ 1
      → stops advance decimal left right total t rx shown row ≡ false
      → pill_row advance decimal left right total t rx shown row ≤ 1
  unfolding stops pill_row
  row_of_pill t rx shown row h s = ground arith

  row_of_more :
      (t : Text) (rx : ℤ) (shown row : ℕ)
      → row ≤ 1
      → stops advance decimal left right total t rx shown row ≡ true
      → pill_row advance decimal left right total t rx shown row ≡ 2
  unfolding stops pill_row
  row_of_more t rx shown row h s = ground arith

  pill-IsPlaced :
      (x w : ℤ) (row : ℕ) (t : Text)
      → row ≤ 1
      → IsPlaced base (pill advance decimal left right total x (row_y row) w t)
  unfolding pill row_y
  pill-IsPlaced x w zero t h = inl (omega int_laws)
  pill-IsPlaced x w (suc zero) t h = inr refl
  pill-IsPlaced x w (suc (suc row)) t h = absurd (omega arith)

  more-IsPlaced :
      (shown : ℕ) → All (IsPlaced base) (more advance decimal left right total (row_y 2) shown)
  unfolding more row_y
  more-IsPlaced shown =
      if_rule (All (IsPlaced base)) (ltb 0 (total - shown)) (λ _. (refl, tt)) (λ _. tt)

  place-IsPlaced :
      (ts : List Text) (rx ry : ℤ) (shown row : ℕ)
      → row ≤ 1
      → ry ≡ row_y row
      → All (IsPlaced base) (place advance decimal left right total ts rx ry shown row)
  unfolding place
  place-IsPlaced [] rx ry shown row h e = tt
  place-IsPlaced (t ∷ ts) rx ry shown row h e =
      let y = pill_y-row_y t rx ry shown row e in
      if_rule (All (IsPlaced base)) (stops advance decimal left right total t rx shown row)
        (λ s. rw (y, row_of_more t rx shown row h s) (more-IsPlaced shown))
        (λ s.
          let low = row_of_pill t rx shown row h s in
          (
            rw y (
                pill-IsPlaced (pill_x advance decimal left right total t rx shown)
                  (clipped_w advance decimal left right total t rx shown) _ t low),
            place-IsPlaced ts _ _ (suc shown) _ low y,
          ))

  -- The pill lies between the two sides.
  IsInside : ReactionRow → Type 0
  IsInside r = r.is_overflow ≡ false → (left ≤ℤ r.x) × (r.x +ℤ r.w ≤ℤ right)

  pill-inside :
      (t : Text) (rx : ℤ) (shown : ℕ)
      → left +ℤ pill_w advance decimal left right total t ≤ℤ right
      → left ≤ℤ rx
      → (shown ≡ 0 → rx ≡ left)
      → let x = pill_x advance decimal left right total t rx shown in
        let w = clipped_w advance decimal left right total t rx shown in
        (left ≤ℤ x) × (x +ℤ w ≤ℤ right) × (pos 0 ≤ℤ w)
  unfolding pill_x clipped_w wraps
  pill-inside t rx zero fits h first =
      let W = pos (advance t + 16) in ground (arith, +ℤ_parts left W, +ℤ_parts rx W, first refl)
  pill-inside t rx (suc shown) fits h first =
      let W = pos (advance t + 16) in ground (arith, +ℤ_parts left W, +ℤ_parts rx W)

  place-IsInside :
      (ts : List Text) (rx ry : ℤ) (shown row : ℕ)
      → All (λ t. left +ℤ pill_w advance decimal left right total t ≤ℤ right) ts
      → left ≤ℤ rx
      → (shown ≡ 0 → rx ≡ left)
      → All IsInside (place advance decimal left right total ts rx ry shown row)
  unfolding place pill IsInside more
  place-IsInside [] rx ry shown row fits h first = tt
  place-IsInside (t ∷ ts) rx ry shown row (fit, fits) h first =
      let x = pill_x advance decimal left right total t rx shown in
      let w = clipped_w advance decimal left right total t rx shown in
      let (low, high, wide) = pill-inside t rx shown fit h first in
      if_rule (All IsInside) (stops advance decimal left right total t rx shown row)
        (λ _. if_rule (All IsInside) (ltb 0 (total - shown)) (λ _. ((λ e. cc), tt)) (λ _. tt))
        (λ _. (
          (λ _. (low, high)),
          place-IsInside ts (x +ℤ w +ℤ pos reaction_pill_gap)
              (pill_y advance decimal left right total t rx ry shown) (suc shown) _ fits
              (omega (arith, +ℤ_parts x w, +ℤ_parts (x +ℤ w) (pos reaction_pill_gap)))
              (λ e. absurd (omega arith)),
        ))

module _ (advance : Text → ℕ) (decimal : ℕ → Text) (left right : ℤ) (total : ℕ) where
  abbrev first_x : Text → ℤ
  first_x t = pill_x advance decimal left right total t left 0

  abbrev first_w : Text → ℤ
  first_w t = clipped_w advance decimal left right total t left 0

  after_first :
      (t : Text)
      → left ≤ℤ right
      → (left ≤ℤ first_x t +ℤ first_w t +ℤ pos 3)
        × (pill_row advance decimal left right total t left 0 0 ≡ 0)
        × (stops advance decimal left right total t left 0 0 ≡ false)
  unfolding pill_x clipped_w wraps pill_w pill_row stops
  after_first t h =
      let W = pos (advance t + 16) in
      ground (
        arith,
        +ℤ_parts left W,
        +ℤ_parts (left +ℤ W) (pos 3),
        -ℤ_parts right left,
        +ℤ_parts left (right -ℤ left),
        +ℤ_parts (left +ℤ (right -ℤ left)) (pos 3),
      )

  later_sticks_out :
      (u : Text) (rx : ℤ) (k : ℕ)
      → left ≤ℤ rx
      → right +ℤ pos 1 ≤ℤ left +ℤ pill_w advance decimal left right total u
      → (stops advance decimal left right total u rx (suc k) 0 ≡ false)
        × (right +ℤ pos 1
            ≤ℤ pill_x advance decimal left right total u rx (suc k)
              +ℤ clipped_w advance decimal left right total u rx (suc k))
  unfolding pill_x clipped_w wraps pill_w stops
  later_sticks_out u rx k h wide =
      let W = pos (advance u + 16) in
      ground (arith, +ℤ_parts left W, +ℤ_parts rx W, +ℤ_parts right (pos 1))

  second_sticks_out :
      (t u : Text) (ts : List Text) (y : ℤ)
      → left ≤ℤ right
      → right +ℤ pos 1 ≤ℤ left +ℤ pill_w advance decimal left right total u
      → (r : ReactionRow) × (get_elem?
            (place advance decimal left right total (t ∷ u ∷ ts) left y 0 0)
            1
          ≡ some r)
        × (r.caption ≡ u)
        × (right +ℤ pos 1 ≤ℤ r.x +ℤ r.w)
  unfolding place pill
  second_sticks_out t u ts y h wide =
      let (low, row, go_on) = after_first t h in
      let rx = first_x t +ℤ first_w t +ℤ pos 3 in
      let (go_on', out) = later_sticks_out u rx 0 low wide in
      rw (go_on, row, go_on') (_, refl, refl, out)

module _ (advance : Text → ℕ) (decimal : ℕ → Text) (reactions : List Text)
    (bubble_x base_y bubble_w : ℤ) where
  rows : List ReactionRow
  rows = compute_reaction_layout advance decimal reactions bubble_x base_y bubble_w

  -- The pills stand in two rows, 23 pixels apart. The pill with the number of the reactions that are
  -- left stands in a third row.
  pub compute_reaction_layout-IsPlaced :
      All
        (IsPlaced base_y)
        (compute_reaction_layout advance decimal reactions bubble_x base_y bubble_w)
  unfolding compute_reaction_layout row_y
  compute_reaction_layout-IsPlaced =
      let left = bubble_x +ℤ pos bubble_padding in
      place-IsPlaced advance decimal left (bubble_x +ℤ bubble_w -ℤ pos bubble_padding)
        (length reactions) base_y reactions left base_y 0 0 (omega arith) (omega int_laws)

  -- Where every pill fits the inside of the bubble by itself, each pill with a reaction lies
  -- between the two sides, ten pixels off the edges.
  pub compute_reaction_layout_inside :
      All
        (λ t.
          bubble_x +ℤ pos bubble_padding +ℤ pos (advance t + reaction_pill_pad)
          ≤ℤ bubble_x +ℤ bubble_w -ℤ pos bubble_padding)
        reactions
      → All
          (λ r.
            r.is_overflow ≡ false
            → (bubble_x +ℤ pos bubble_padding ≤ℤ r.x)
              × (r.x +ℤ r.w ≤ℤ bubble_x +ℤ bubble_w -ℤ pos bubble_padding))
          (compute_reaction_layout advance decimal reactions bubble_x base_y bubble_w)
  unfolding compute_reaction_layout IsInside pill_w
  compute_reaction_layout_inside fits =
      let left = bubble_x +ℤ pos bubble_padding in
      place-IsInside advance decimal left (bubble_x +ℤ bubble_w -ℤ pos bubble_padding)
        (length reactions) base_y reactions left base_y 0 0 fits (omega arith) (λ _. refl)

  below_reserve :
      (rs : List ReactionRow)
      → All (IsPlaced base_y) rs
      → All
          (λ r.
            r.is_overflow ≡ true
            → base_y +ℤ pos (reaction_height (length reactions) bubble_w) ≤ℤ r.y)
          rs
  below_reserve [] h = tt
  below_reserve (r ∷ rs) (p, ps) = (below, below_reserve rs ps)
    where
      h : ℕ
      h = reaction_height (length reactions) bubble_w

      below : r.is_overflow ≡ true → base_y +ℤ pos h ≤ℤ r.y
      below o =
          let there : r.y ≡ base_y +ℤ pos 46 = ground arith in
          rw there (
            omega (
              arith,
              +ℤ_parts base_y (pos h),
              +ℤ_parts base_y (pos 46),
              reaction_height-le (length reactions) bubble_w,
            ))

  -- The height that computeLayout sets aside for the reactions of a row never covers the pill with
  -- the number of those that are left: that pill begins at its lower end or below it.
  compute_reaction_layout_overflows :
      All
        (λ r.
          r.is_overflow ≡ true → base_y +ℤ pos (reaction_height (length reactions) bubble_w) ≤ℤ r.y)
        (compute_reaction_layout advance decimal reactions bubble_x base_y bubble_w)
  compute_reaction_layout_overflows = below_reserve _ compute_reaction_layout-IsPlaced

-- A pill that is wider than the bubble's inside is cut only if it is the first of all. As the
-- second one it sticks out of that inside on the right.
pub second_pill_sticks_out :
    (advance : Text → ℕ) (decimal : ℕ → Text) (t u : Text) (others : List Text)
    (bubble_x base_y bubble_w : ℤ)
    → bubble_x +ℤ pos bubble_padding ≤ℤ bubble_x +ℤ bubble_w -ℤ pos bubble_padding
    → bubble_x +ℤ bubble_w -ℤ pos bubble_padding +ℤ pos 1
      ≤ℤ bubble_x +ℤ pos bubble_padding +ℤ pos (advance u + reaction_pill_pad)
    → (r : ReactionRow) × (get_elem?
          (compute_reaction_layout advance decimal (t ∷ u ∷ others) bubble_x base_y bubble_w)
          1
        ≡ some r)
      × (r.caption ≡ u)
      × (bubble_x +ℤ bubble_w -ℤ pos bubble_padding +ℤ pos 1 ≤ℤ r.x +ℤ r.w)
unfolding compute_reaction_layout pill_w
second_pill_sticks_out advance decimal t u others bubble_x base_y bubble_w =
    second_sticks_out advance decimal (bubble_x +ℤ pos bubble_padding)
      (bubble_x +ℤ bubble_w -ℤ pos bubble_padding) (length (t ∷ u ∷ others)) t u others base_y
