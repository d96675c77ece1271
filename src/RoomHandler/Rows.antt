-- ===== src/RoomHandler/Rows.antt =====
-- The rows that the loop over one page of older messages makes (src/ui/handlers/room_handler.cpp, onLoadMoreClicked).
use progressive_desktop.Base.{
  ℕ, ◌+◌, ◌≤◌, ◌≡◌, refl, Bool, false, List, [], ◌∷◌, arith, Text, text, is_empty, ◌==◌, not, ◌&&◌,
  ◌||◌, Map, length, All, All-append, length-append, Option-cases, if_rule, inl, inr,
}
use progressive_desktop.Engine.{DisplayedEvent}
use progressive_desktop.History.{Raw}
use progressive_desktop.RoomHandler.Page.{
  Engine, RowCall, ReadPage, is_state, is_reaction, put_call, put_row, redact, react, state_row,
  dress, edit_or_row, message, page_event, page_events, reverse, read_page,
}

module _ (g : Engine) (has_row : Text → Bool) (cache : Map Text) where
  -- A row of its own: no reaction, and no edit of a row that the timeline has.
  abbrev pub IsRow : DisplayedEvent → Type 0
  IsRow d = (is_reaction d ≡ false) × ((d.is_replace && has_row d.replace_target_id) ≡ false)

  -- The rows are rows of their own, and there are at most `n` rows and calls.
  abbrev IsRead : ℕ → ReadPage → Type 0
  IsRead n p = All IsRow p.events × (length p.events + length p.calls ≤ n)

  put_call-IsRead :
      (n : ℕ) (c : RowCall) (p : ReadPage) → IsRead n p → IsRead (n + 1) (put_call c p)
  unfolding put_call
  put_call-IsRead n c p (h, le) = (h, omega (arith, length-append p.calls (c ∷ []), le))

  put_row-IsRead :
      (n : ℕ) (d : DisplayedEvent) (p : ReadPage)
      → IsRow d
      → IsRead n p
      → IsRead (n + 1) (put_row d p)
  unfolding put_row
  put_row-IsRead n d p r (h, le) = (
    All-append IsRow p.events (d ∷ []) h (r, tt),
    omega (arith, length-append p.events (d ∷ []), le),
  )

  kept : (n : ℕ) (p : ReadPage) → IsRead n p → IsRead (n + 1) p
  kept n p (h, le) = (h, omega arith)

  redact-IsRead :
      (n : ℕ) (d : DisplayedEvent) (p : ReadPage)
      → IsRead n p
      → IsRead (n + 1) (redact g has_row cache d p)
  unfolding redact
  redact-IsRead n d p h =
      if_rule (IsRead (n + 1)) (is_empty (g.extract d.content_json (text "redacts")))
        (λ s. kept n p h) (λ s. put_call-IsRead n _ p h)

  react-IsRead :
      (n : ℕ) (d : DisplayedEvent) (p : ReadPage)
      → IsRead n p
      → IsRead (n + 1) (react g has_row cache d p)
  unfolding react
  react-IsRead n d p h = elim (Option-cases (g.relation d.content_json)) [
    | inl e ↦ rw (e, react) (kept n p h)
    | inr ((target, key), e) ↦ rw (e, react) (put_call-IsRead n _ p h)
  ]

  edit_or_row-IsRead :
      (n : ℕ) (d : DisplayedEvent) (p : ReadPage)
      → is_reaction d ≡ false
      → IsRead n p
      → IsRead (n + 1) (edit_or_row g has_row cache d p)
  unfolding edit_or_row
  edit_or_row-IsRead n d p r h =
      if_rule (IsRead (n + 1)) (d.is_replace && has_row d.replace_target_id)
        (λ s. put_call-IsRead n _ p h) (λ s. put_row-IsRead n d p (r, s) h)

  dress-is_reaction : (d : DisplayedEvent) → is_reaction (dress g has_row cache d) ≡ is_reaction d
  unfolding dress
  dress-is_reaction d =
      if_rule (λ (d' : DisplayedEvent). is_reaction d' ≡ is_reaction d)
        (d.event_type == text "m.room.encrypted") (λ s. refl) (λ s. refl)

  message-IsRead :
      (n : ℕ) (d : DisplayedEvent) (p : ReadPage)
      → IsRead n p
      → IsRead (n + 1) (message g has_row cache d p)
  unfolding message
  message-IsRead n d p h =
      if_rule (IsRead (n + 1)) (is_reaction (g.convert d)) (λ s. react-IsRead n (g.convert d) p h)
        (λ s. edit_or_row-IsRead n _ p (rw (dress-is_reaction (g.convert d)) s) h)

  state_row-IsRead :
      (n : ℕ) (r : Raw) (p : ReadPage)
      → g.blank.is_replace ≡ false
      → IsRead n p
      → IsRead (n + 1) (state_row g has_row cache r p)
  unfolding state_row ◌==◌ text
  state_row-IsRead n r p b h =
      if_rule (IsRead (n + 1))
        (is_empty (g.system_body r.fields.event_type r.fields.content_json r.state_key))
        (λ s. kept n p h) (λ s. put_row-IsRead n _ p (refl, rw b refl) h)

  page_event-IsRead :
      (n : ℕ) (r : Raw) (p : ReadPage)
      → g.blank.is_replace ≡ false
      → IsRead n p
      → IsRead (n + 1) (page_event g has_row cache r p)
  unfolding page_event
  page_event-IsRead n r p b h =
      let d = r.fields in
      let t = d.event_type in
      let Read = IsRead (n + 1) in
      if_rule Read (t == text "m.room.redaction" && not (is_empty d.content_json))
        (λ s. redact-IsRead n d p h)
        (λ s.
          if_rule Read (is_reaction d) (λ s. react-IsRead n d p h)
            (λ s.
              if_rule Read (is_state t) (λ s. state_row-IsRead n r p b h)
                (λ s.
                  if_rule Read
                    (t == text "m.typing" || t == text "m.receipt" || t == text "m.fully_read")
                    (λ s. kept n p h)
                    (λ s.
                      if_rule Read (t == text "m.room.message" || t == text "m.room.encrypted")
                        (λ s. message-IsRead n d p h) (λ s. kept n p h)))))

  page_events-IsRead :
      (n : ℕ) (rs : List Raw) (p : ReadPage)
      → g.blank.is_replace ≡ false
      → IsRead n p
      → IsRead (length rs + n) (page_events g has_row cache rs p)
  unfolding page_events
  page_events-IsRead n [] p b h = (h.0, omega (arith, h.1))
  page_events-IsRead n (r ∷ rs) p b h =
      let (rows, le) =
        page_events-IsRead (n + 1) rs (page_event g has_row cache r p) b
          (page_event-IsRead n r p b h) in
      (rows, omega (arith, le))

  reverse-All :
      (P : DisplayedEvent → Type 0) (ds : List DisplayedEvent)
      → All P ds
      → All P (reverse g has_row cache ds)
  reverse-All P [] h = tt
  reverse-All P (d ∷ ds) (h, hs) = All-append P _ (d ∷ []) (reverse-All P ds hs) (h, tt)

  length-reverse : (ds : List DisplayedEvent) → length (reverse g has_row cache ds) ≡ length ds
  length-reverse [] = refl
  length-reverse (d ∷ ds) =
      omega (arith, length-append (reverse g has_row cache ds) (d ∷ []), length-reverse ds)

  -- A page of older events becomes at most one row or one call of the timeline for each event, and no row
  -- is a reaction or an edit of a row that the timeline has: those are calls. A default-constructed row
  -- is no edit.
  pub read_page-IsRow :
      (rs : List Raw)
      → g.blank.is_replace ≡ false
      → All IsRow (read_page g has_row cache rs).events
        × (length (read_page g has_row cache rs).events
              + length (read_page g has_row cache rs).calls
            ≤ length rs)
  unfolding read_page
  read_page-IsRow rs b =
      let (rows, le) =
        page_events-IsRead 0 rs (record { events = []; calls = [] }) b (tt, omega arith) in
      (
        reverse-All IsRow _ rows,
        omega (
          arith,
          le,
          length-reverse
              (page_events g has_row cache rs (record { events = []; calls = [] })).events,
        ),
      )
