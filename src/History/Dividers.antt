-- ===== src/History/Dividers.antt =====
-- Where loadHistory of src/ui/room/room_data_loader.cpp puts the dividers between days.
use progressive_desktop.Base.{
  ◌≡◌, refl, ap, Bool, true, List, [], ◌∷◌, not, ◌&&◌, if_rule, keep, All,
}
use progressive_desktop.Base.Int.{ℤ, pos, ltb_ℤ}
use progressive_desktop.Engine.{DisplayedEvent}
use progressive_desktop.History.{Engine, day_of, eqb_ℤ, divider, with_dividers}

abbrev pub is_event : DisplayedEvent → Bool
is_event d = not d.is_date_divider

-- Two events that stand side by side belong to one day, unless the first has no proper time.
abbrev pub IsSameDay : DisplayedEvent → DisplayedEvent → Type 0
IsSameDay a b =
    is_event a ≡ true
    → is_event b ≡ true
    → ltb_ℤ (pos 0) (day_of a.origin_server_ts) ≡ true
    → eqb_ℤ (day_of b.origin_server_ts) (day_of a.origin_server_ts) ≡ true

-- Each row and the next are so.
abbrev pub Linked : List DisplayedEvent → Type 0
Linked [] = Unit
Linked (a ∷ []) = Unit
Linked (a ∷ b ∷ rest) = IsSameDay a b × Linked (b ∷ rest)

module _ (g : Engine) where
  -- The dividers are all that is added: without them the rows are the events, in their order.
  with_dividers_keeps :
      (es : List DisplayedEvent) (previous : ℤ)
      → All (λ d. is_event d ≡ true) es
      → keep is_event (with_dividers g previous es) ≡ es
  unfolding with_dividers divider
  with_dividers_keeps [] previous h = refl
  with_dividers_keeps (e ∷ es) previous (p, ps) =
      let rest = with_dividers_keeps es (day_of e.origin_server_ts) ps in
      if_rule (λ xs. keep is_event xs ≡ e ∷ es)
        (ltb_ℤ (pos 0) previous && not (eqb_ℤ (day_of e.origin_server_ts) previous))
        (λ s. rw p (ap (e ∷◌) rest)) (λ s. rw p (ap (e ∷◌) rest))
