-- ===== src/Tests/Bubbles.antt =====
-- Examples for the heights of a bubble, its reactions and the short names.
use progressive_desktop.Base.{ℕ, ◌≡◌, false, Option, none, List, [], ◌∷◌, arith, Text, text, All}
use progressive_desktop.Base.Int.{ℤ, pos, ◌+ℤ◌, ◌-ℤ◌, ◌≤ℤ◌}
use progressive_desktop.Engine.{DisplayedEvent}
use progressive_desktop.Tests.{blank, letter, unary}
use progressive_desktop.Timeline.{Media}
use progressive_desktop.Layout.{BubbleLayout, compute_layout}
use progressive_desktop.Layout.Reactions.{ReactionRow, compute_reaction_layout}
use progressive_desktop.Layout.Reactions.Pills.{Shows, compute_reaction_layout-Shows}
use progressive_desktop.Layout.Reactions.Geometry.{compute_reaction_layout_inside}

abbrev advance : Text → ℕ
advance t = 10

abbrev captions : List Text
captions = letter 1 ∷ letter 2 ∷ []

compute_reaction_layout-Shows_example :
    Shows unary captions (compute_reaction_layout advance unary captions (pos 0) (pos 0) (pos 100))
compute_reaction_layout-Shows_example =
    compute_reaction_layout-Shows advance unary captions (pos 0) (pos 0) (pos 100)

compute_reaction_layout_inside_example :
    All
      (λ (r : ReactionRow).
        r.is_overflow ≡ false
        → (pos 0 +ℤ pos 10 ≤ℤ r.x) × (r.x +ℤ r.w ≤ℤ pos 0 +ℤ pos 100 -ℤ pos 10))
      (compute_reaction_layout advance unary captions (pos 0) (pos 0) (pos 100))
unfolding ◌+ℤ◌ ◌-ℤ◌
compute_reaction_layout_inside_example =
    compute_reaction_layout_inside advance unary captions (pos 0) (pos 0) (pos 100)
      (omega arith, (omega arith, tt))

abbrev loader : Option (Media ℕ)
loader = none

abbrev text_height : Text → Text → ℤ → ℕ
text_height body kind w = 15

-- A row inside a group, and a row with a picture.
abbrev inner_row : DisplayedEvent
inner_row = record blank {
  body = letter 97;
  group_last = false;
  group_first = false;
  msgtype = text "m.text";
}

abbrev picture_row : DisplayedEvent
picture_row = record blank { body = letter 97; msgtype = text "m.image"; mxc_url = letter 98 }

abbrev file_row : DisplayedEvent
file_row = record blank { body = letter 97; msgtype = text "m.file" }

abbrev layout_of : DisplayedEvent → BubbleLayout
layout_of e = compute_layout loader 0 unary text_height e [] (pos 200)
