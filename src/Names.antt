-- ===== src/Names.antt =====
-- The short form of a Matrix user id: src/ui/timeline/timeline_painter.cpp, src/ui/room_list_delegate.cpp
-- and src/ui/room/event_parser.cpp each cut it out of `@local:domain`.
use progressive_desktop.Base.{
  ℕ, suc, ◌-◌, ◌≡◌, refl, ap, ◌≢◌, none, some, ◌∷◌, ◌++◌, arith, Text, text, take, drop, All,
  length, is_empty, if◌then◌else◌, ltb, lt→ltb, index_of, index_of-append, take-append, starts_with,
}

-- `colon > 1` asks for a local part.
cut_mxid : Text → Text
cut_mxid mxid = elim (index_of b':' mxid) [
  | none ↦ drop 1 mxid
  | some i ↦ if ltb 1 i then take (i - 1) (drop 1 mxid) else drop 1 mxid
]

-- `shortName` of the painter.
pub short_name : Text → Text
unfolding cut_mxid
short_name mxid =
    if is_empty mxid then text "?" else if starts_with b'@' mxid then cut_mxid mxid else mxid

-- The name of who invites, in the room list.
pub inviter_name : Text → Text
unfolding cut_mxid
inviter_name mxid =
    let name = if starts_with b'@' mxid then cut_mxid mxid else mxid in
    if is_empty name then text "Someone" else name

-- The name of the first of those who type, in the room list.
pub typing_name : Text → Text
unfolding cut_mxid
typing_name mxid = if starts_with b'@' mxid then cut_mxid mxid else mxid

-- `senderName` of a parsed event: any colon ends the local part.
unfoldable pub parsed_name : Text → Text → Text
parsed_name old mxid =
    let cut : Text = elim (index_of b':' mxid) [
      | none ↦ drop 1 mxid
      | some i ↦ take (i - 1) (drop 1 mxid)
    ] in
    if starts_with b'@' mxid then cut else old

-- Around the colon behind the local part.
colon_at :
    (c : ℕ) (rest domain : Text)
    → All (λ x. x ≢ b':') (c ∷ rest)
    → index_of b':' (b'@' ∷ (c ∷ rest) ++ b':' ∷ domain) ≡ some (suc (suc (length rest)))
colon_at c rest domain h =
    index_of-append b':' (b'@' ∷ c ∷ rest) domain ((λ e. absurd (omega arith)), h)

minus_one : (n : ℕ) → suc (suc n) - 1 ≡ suc n
minus_one n = omega arith

cut_local :
    (c : ℕ) (rest domain : Text)
    → All (λ x. x ≢ b':') (c ∷ rest)
    → cut_mxid (b'@' ∷ (c ∷ rest) ++ b':' ∷ domain) ≡ c ∷ rest
unfolding cut_mxid
cut_local c rest domain h =
    rw
      (
        cut_mxid,
        colon_at c rest domain h,
        lt→ltb 1 (suc (suc (length rest))) (omega arith),
        minus_one (length rest),
      )
      (ap (c ∷◌) (take-append rest (b':' ∷ domain)))

parsed_local :
    (c : ℕ) (rest domain old : Text)
    → All (λ x. x ≢ b':') (c ∷ rest)
    → parsed_name old (b'@' ∷ (c ∷ rest) ++ b':' ∷ domain) ≡ c ∷ rest
unfolding parsed_name
parsed_local c rest domain old h =
    rw (colon_at c rest domain h, minus_one (length rest))
      (ap (c ∷◌) (take-append rest (b':' ∷ domain)))

-- All four give the local part of `@local:domain`, where it is not empty and holds no colon.
names_agree :
    (c : ℕ) (rest domain old : Text)
    → All (λ x. x ≢ b':') (c ∷ rest)
    → let mxid = b'@' ∷ (c ∷ rest) ++ b':' ∷ domain in
      (short_name mxid ≡ c ∷ rest)
      × (inviter_name mxid ≡ c ∷ rest)
      × (typing_name mxid ≡ c ∷ rest)
      × (parsed_name old mxid ≡ c ∷ rest)
unfolding short_name inviter_name typing_name cut_mxid
names_agree c rest domain old h =
    let cut = cut_local c rest domain h in (cut, rw cut refl, cut, parsed_local c rest domain old h)
