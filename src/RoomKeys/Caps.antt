-- ===== src/RoomKeys/Caps.antt =====
-- How many rows appendRoomKeyRows of src/ui/handlers/sync_response_handler.cpp appends.
use progressive_desktop.Base.{
  ℕ, suc, ◌+◌, ◌-◌, ◌≡◌, min, Bool, true, false, Option, List, [], ◌∷◌, ◌++◌, arith, Text, ◌&&◌,
  if◌then◌else◌, if_rule, Map, length, length-append, count_if, leb, ltb, Bool-cases, inl, inr,
}
use progressive_desktop.Base.Int.{ℤ}
use progressive_desktop.Engine.{DisplayedEvent}
use progressive_desktop.RoomKeys.{
  Kind, Notification, Progress, start, is_ours, key_row, append_row, skip, key_event, key_events,
  summary, append_room_key_rows,
}

abbrev pub is_request : Kind → Bool
is_request Kind.requested = true
is_request _ = false

abbrev pub is_withheld : Kind → Bool
is_withheld Kind.withheld = true
is_withheld _ = false

abbrev pub is_other : Kind → Bool
is_other Kind.requested = false
is_other Kind.withheld = false
is_other _ = true

abbrev one : Bool → ℕ
one true = 1
one false = 0

one_more : (a : ℕ) (b : Bool) (n : ℕ) → a + (if b then suc n else n) ≡ a + one b + n
one_more a b n = ground arith

-- The notifications of the open room whose kind passes a test.
abbrev pub ours : Text → (Kind → Bool) → List Notification → ℕ
ours room p ns = count_if (λ (n : Notification). is_ours room n && p n.kind) ns

module _ (blank : DisplayedEvent) (decimal : ℕ → Text) (decimal_ts : ℤ → Text)
    (cache : Option (Map Text)) where
  -- How the counters stand when `r` requests, `w` refusals and `o` others have been seen.
  abbrev Counts : ℕ → ℕ → ℕ → Progress → Type 0
  Counts r w o p =
      (p.requested_rows ≡ min 3 r)
      × (p.withheld_rows ≡ min 3 w)
      × (p.skipped ≡ (r - 3) + (w - 3))
      × (length p.rows ≡ min 3 r + min 3 w + o)

  -- A row more, and the counters as they were.
  append_row-Counts :
      (n : Notification) (r w o : ℕ) (p : Progress)
      → (p.requested_rows ≡ min 3 r) × (p.withheld_rows ≡ min 3 w) × (p.skipped ≡ (r - 3) + (w - 3))
      → suc (length p.rows) ≡ min 3 r + min 3 w + o
      → Counts r w o (append_row blank decimal decimal_ts cache n p)
  unfolding append_row
  append_row-Counts n r w o p (a, b, c) l =
      let more = length-append p.rows (key_row blank decimal decimal_ts cache n ∷ []) in
      (a, b, c, omega (arith, more, l))

  key_event-Counts :
      (k : Kind) (n : Notification) (r w o : ℕ) (p : Progress)
      → Counts r w o p
      → Counts
          (r + one (is_request k))
          (w + one (is_withheld k))
          (o + one (is_other k))
          (key_event blank decimal decimal_ts k cache n p)
  unfolding key_event skip
  key_event-Counts Kind.requested n r w o p c =
      if_rule (Counts (r + 1) (w + 0) (o + 0)) (leb 3 p.requested_rows) (λ s. ground (arith, c))
        (λ s.
          append_row-Counts n (r + 1) (w + 0) (o + 0)
            (record p { requested_rows = suc p.requested_rows }) (ground (arith, c))
            (ground (arith, c)))
  key_event-Counts Kind.withheld n r w o p c =
      if_rule (Counts (r + 0) (w + 1) (o + 0)) (leb 3 p.withheld_rows) (λ s. ground (arith, c))
        (λ s.
          append_row-Counts n (r + 0) (w + 1) (o + 0)
            (record p { withheld_rows = suc p.withheld_rows }) (ground (arith, c))
            (ground (arith, c)))
  key_event-Counts Kind.received n r w o p c =
      append_row-Counts n (r + 0) (w + 0) (o + 1) p (ground (arith, c)) (ground (arith, c))
  key_event-Counts Kind.gave_up n r w o p c =
      append_row-Counts n (r + 0) (w + 0) (o + 1) p (ground (arith, c)) (ground (arith, c))

  key_events-Counts :
      (room : Text) (ns : List Notification) (r w o : ℕ) (p : Progress)
      → Counts r w o p
      → Counts
          (r + ours room is_request ns)
          (w + ours room is_withheld ns)
          (o + ours room is_other ns)
          (key_events blank decimal decimal_ts cache room ns p)
  unfolding key_events
  key_events-Counts room [] r w o p c = ground (arith, c)
  key_events-Counts room (n ∷ ns) r w o p c = elim (Bool-cases (is_ours room n)) [
    | inl t ↦
        rw
          (
            key_events,
            t,
            one_more r (is_request n.kind),
            one_more w (is_withheld n.kind),
            one_more o (is_other n.kind),
          )
          (key_events-Counts room ns (r + one (is_request n.kind)) (w + one (is_withheld n.kind))
            (o + one (is_other n.kind)) (key_event blank decimal decimal_ts n.kind cache n p)
            (key_event-Counts n.kind n r w o p c))
    | inr f ↦ rw (key_events, f) (key_events-Counts room ns r w o p c)
  ]

  -- The summary adds one row, where something was skipped.
  summed :
      (now : ℤ) (p : Progress) (r w o : ℕ)
      → Counts r w o p
      → length (
          if ltb 0 p.skipped
          then p.rows ++ summary blank decimal decimal_ts now p.skipped ∷ []
          else p.rows)
        ≡ min 3 r + min 3 w + o + (if ltb 0 ((r - 3) + (w - 3)) then 1 else 0)
  summed now p r w o (a, b, c, l) =
      let more = length-append p.rows (summary blank decimal decimal_ts now p.skipped ∷ []) in
      elim (Bool-cases (ltb 0 p.skipped)) [
        | inl t ↦ rw⁻¹ c (rw t (omega (arith, more, l)))
        | inr f ↦ rw⁻¹ c (rw f (omega (arith, l)))
      ]

  -- Three rows at most for the requests of the open room, three at most for the refusals, one for
  -- each other notification, and one row more that sums up what was left out, if anything was.
  pub append_room_key_rows-length :
      (now : ℤ) (room : Text) (ns : List Notification)
      → let r = ours room is_request ns in
        let w = ours room is_withheld ns in
        length (append_room_key_rows blank decimal decimal_ts cache now room ns)
        ≡ min 3 r + min 3 w + ours room is_other ns + (if ltb 0 ((r - 3) + (w - 3)) then 1 else 0)
  unfolding append_room_key_rows start
  append_room_key_rows-length now room ns =
      let (a, b, c, l) =
        key_events-Counts room ns 0 0 0 start
          (omega arith, omega arith, omega arith, omega arith) in
      summed now (key_events blank decimal decimal_ts cache room ns start) (ours room is_request ns)
        (ours room is_withheld ns) (ours room is_other ns)
        (omega (arith, a), omega (arith, b), omega (arith, c), omega (arith, l))
