-- ===== src/Layout/Bubble.antt =====
-- The heights that computeLayout of src/ui/timeline/timeline_layout.cpp sets aside.
use progressive_desktop.Base.{ℕ, ◌+◌, ◌-◌, ◌/◌, ◌≤◌, arith, min, max}
use progressive_desktop.Base.Int.{ℤ, pos, pos_part, ◌-ℤ◌, div_ℤ}
use progressive_desktop.Layout.{reaction_height}

-- Two rows of pills at most.
pub reaction_height-le : (n : ℕ) (w : ℤ) → reaction_height n w ≤ 40
unfolding reaction_height
reaction_height-le n w =
    let per_row = max 1 (pos_part (div_ℤ (w -ℤ pos 20) 100)) in
    let m : min 2 ((n + per_row - 1) / per_row) ≤ 2 = omega arith in ground (arith, m)
