-- ===== src/Feed/Rows.antt =====
-- What becomes of the events that appendTimelineForRoom of src/ui/room/room_store.cpp reads.
use progressive_desktop.Base.{
  ℕ, suc, ◌+◌, ◌≤◌, ◌≡◌, refl, Bool, false, Option, none, some, List, [], ◌∷◌, ◌++◌, arith, Text,
  text, is_empty, ◌==◌, not, ◌&&◌, ◌||◌, if_rule, Map, lookup, length, length-append, All,
  All-append,
}
use progressive_desktop.Engine.{DisplayedEvent}
use progressive_desktop.Feed.{
  FastEvent, Engine, Feed, Call, start, call, row, react, is_reaction, is_state, has_type,
  feed_event, feed_events, make_system_event, with_avatar, edit_or_row, message, redact, state_row,
  own_join,
}

-- No row stands for a reaction.
abbrev pub IsRow : DisplayedEvent → Type 0
IsRow d = is_reaction d.event_type d.content_json ≡ false

abbrev pub size : Feed → ℕ
size f = length f.batch + length f.pending + length f.calls

-- What one event leaves: the rows are rows of messages or of the system, and it adds one thing at most.
abbrev IsStep : Feed → Feed → Type 0
IsStep f f' =
    (All IsRow f.batch → All IsRow f'.batch) × (size f ≤ size f') × (size f' ≤ suc (size f))

module _ (g : Engine) (has_row : Text → Bool) (avatars : Map Text) (my_user : Text) where
  system-IsRow : (e : FastEvent) → IsRow (make_system_event g has_row avatars my_user e)
  unfolding make_system_event text ◌==◌
  system-IsRow e = refl

  same-IsStep : (f : Feed) → IsStep f f
  same-IsStep f = (λ h. h, omega arith, omega arith)

  call-IsStep : (c : Call) (f : Feed) → IsStep f (call c f)
  unfolding call
  call-IsStep c f = (
    λ h. h,
    omega (arith, length-append f.calls (c ∷ [])),
    omega (arith, length-append f.calls (c ∷ [])),
  )

  row-IsStep : (d : DisplayedEvent) (f : Feed) → IsRow d → IsStep f (row d f)
  unfolding row
  row-IsStep d f k =
      let n = length-append f.batch (d ∷ []) in
      (λ h. All-append IsRow f.batch (d ∷ []) h (k, tt), omega (arith, n), omega (arith, n))

  react-IsStep : (r : Option (Text × Text)) (sender : Text) (f : Feed) → IsStep f (react r sender f)
  unfolding react
  react-IsStep none sender f = same-IsStep f
  react-IsStep (some (target, key)) sender f =
      let n =
        length-append f.pending
          (record { target_id = target; emoji = key; sender = sender } ∷ []) in
      (λ h. h, omega (arith, n), omega (arith, n))

  with_avatar-IsRow :
      (d : DisplayedEvent) → IsRow d → IsRow (with_avatar g has_row avatars my_user d)
  unfolding with_avatar
  with_avatar-IsRow d k =
      if_rule IsRow (is_empty d.sender_id) (λ s. k)
        (λ s.
          elim (lookup d.sender_id avatars)
            as (λ o. IsRow (elim o [ none ↦ d | some url ↦ record d { avatar_url = url } ])) [
              | none ↦ k
              | some url ↦ k
            ])

  edit_or_row-IsStep :
      (d : DisplayedEvent) (f : Feed)
      → IsRow d
      → IsStep f (edit_or_row g has_row avatars my_user d f)
  unfolding edit_or_row
  edit_or_row-IsStep d f k =
      if_rule (IsStep f) (d.is_replace && has_row d.replace_target_id)
        (λ s. call-IsStep (Call.update_body d.replace_target_id (d.body ++ text " (edited)")) f)
        (λ s. row-IsStep d f k)

  message-IsStep : (e : FastEvent) (f : Feed) → IsStep f (message g has_row avatars my_user e f)
  unfolding message
  message-IsStep e f =
      let d = g.displayed e in
      if_rule (IsStep f) (is_reaction d.event_type d.content_json)
        (λ s. react-IsStep (g.relation d.content_json) d.sender_id f)
        (λ s.
          edit_or_row-IsStep (with_avatar g has_row avatars my_user d) f (with_avatar-IsRow d s))

  redact-IsStep : (e : FastEvent) (f : Feed) → IsStep f (redact g has_row avatars my_user e f)
  unfolding redact
  redact-IsStep e f =
      let target = g.extract e.content_json (text "redacts") in
      if_rule (IsStep f) (is_empty target) (λ s. same-IsStep f)
        (λ s. call-IsStep (Call.mark_deleted target) f)

  state_row-IsStep : (e : FastEvent) (f : Feed) → IsStep f (state_row g has_row avatars my_user e f)
  unfolding state_row
  state_row-IsStep e f =
      let d = make_system_event g has_row avatars my_user e in
      if_rule (IsStep f) (is_empty d.body) (λ s. same-IsStep f)
        (λ s. row-IsStep d f (system-IsRow e))

  feed_event-IsStep :
      (e : FastEvent) (f : Feed) → IsStep f (feed_event g has_row avatars my_user e f)
  unfolding feed_event
  feed_event-IsStep e f =
      let t = has_type e in
      if_rule (IsStep f) (own_join g has_row avatars my_user e) (λ s. same-IsStep f)
        (λ s.
          if_rule (IsStep f) (t (text "m.room.redaction") && not (is_empty e.content_json))
            (λ s. redact-IsStep e f)
            (λ s.
              if_rule (IsStep f) (is_reaction e.event_type e.content_json)
                (λ s. react-IsStep (g.relation e.content_json) e.sender_id f)
                (λ s.
                  if_rule (IsStep f) (is_state e) (λ s. state_row-IsStep e f)
                    (λ s.
                      if_rule (IsStep f)
                        (t (text "m.typing") || t (text "m.receipt") || t (text "m.fully_read"))
                        (λ s. same-IsStep f)
                        (λ s.
                          if_rule (IsStep f)
                            (t (text "m.room.message") || t (text "m.room.encrypted"))
                            (λ s. message-IsStep e f) (λ s. same-IsStep f))))))

  feed_events_step :
      (es : List FastEvent) (f : Feed)
      → let f' = feed_events g has_row avatars my_user es f in
        (All IsRow f.batch → All IsRow f'.batch) × (size f' ≤ size f + length es)
  unfolding feed_events
  feed_events_step [] f = (λ h. h, omega arith)
  feed_events_step (e ∷ es) f =
      let (rows, low, high) = feed_event-IsStep e f in
      let (rest, most) = feed_events_step es (feed_event g has_row avatars my_user e f) in
      (λ h. rest (rows h), omega (arith, high, most))

  -- Whatever events a sync brings, encrypted or not: no row that is appended stands for a reaction, and
  -- rows, reactions and changes of rows together are at most as many as the events, so that no event
  -- counts twice.
  pub feed_events_rows :
      (es : List FastEvent)
      → let f = feed_events g has_row avatars my_user es start in
        All IsRow f.batch × (length f.batch + length f.pending + length f.calls ≤ length es)
  unfolding start
  feed_events_rows es =
      let (rows, most) = feed_events_step es start in (rows tt, omega (arith, most))
