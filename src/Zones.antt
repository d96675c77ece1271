-- ===== src/Zones.antt =====
-- Zones of a row in src/ui/timeline/timeline_delegate.cpp: the lengths of src/ui/timeline/timeline_layout.hpp that only clicks
-- and rows need, and when a click is in a rectangle. Positions are distances from the upper left corner of the row; a click
-- is never above it, so heights are natural numbers.
use progressive_desktop.Base.{
  ℕ, ◌+◌, ◌*◌, Bool, Option, none, some, List, [], ◌∷◌, Text, not, ◌&&◌, if◌then◌else◌, ltb, leb,
}
use progressive_desktop.Base.Int.{ℤ, pos, ◌+ℤ◌, ◌-ℤ◌, ltb_ℤ, min_ℤ}
use progressive_desktop.Layout.Reactions.{ReactionRow}

abbrev pub avatar_size : ℕ
avatar_size = 36

abbrev pub margin : ℕ
margin = 8

abbrev pub gap : ℕ
gap = 8

abbrev pub max_bubble_w : ℕ
max_bubble_w = 480

abbrev pub max_image_w : ℕ
max_image_w = 300

abbrev pub file_card_max_w : ℕ
file_card_max_w = 250

abbrev pub fallback_view_w : ℕ
fallback_view_w = 600

abbrev pub min_usable_view_w : ℕ
min_usable_view_w = 40

pub record Click : Type 0 where
  pub x : ℤ
  pub y : ℕ

-- `QRect::contains` for a zone in the row.
unfoldable pub in_zone : Click → ℤ → ℕ → ℤ → ℕ → Bool
in_zone c x y w h = not (ltb_ℤ c.x x) && ltb_ℤ c.x (x +ℤ w) && leb y c.y && ltb c.y (y + h)

unfoldable pub on_pill : Click → ReactionRow → Bool
on_pill c r =
    not (ltb_ℤ c.x r.x)
    && ltb_ℤ c.x (r.x +ℤ r.w)
    && not (ltb_ℤ (pos c.y) r.y)
    && ltb_ℤ (pos c.y) (r.y +ℤ pos r.h)

-- The loop over the pills.
unfoldable pub pill_at : Click → List ReactionRow → Option Text
unfolding on_pill
pill_at c [] = none
pill_at c (r ∷ rs) =
    let rest = pill_at c rs in if not r.is_overflow && on_pill c r then some r.caption else rest

unfoldable pub bubble_width : ℕ → ℤ
bubble_width width = min_ℤ (pos max_bubble_w) (pos width -ℤ pos (avatar_size + gap + margin * 2))
