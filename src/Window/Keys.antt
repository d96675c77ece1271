-- ===== src/Window/Keys.antt =====
-- The rows that the keys of src/ui/main_window.cpp make current.
use progressive_desktop.Base.{
  ℕ, zero, suc, ◌+◌, ◌-◌, ◌≤◌, ◌<◌, ◌≡◌, refl, ◌&&◌, ap, ◌∙◌, Bool, true, false, Option, none, some,
  List, [], ◌∷◌, arith, not, if◌then◌else◌, ltb, leb, if_rule,
}
use progressive_desktop.Window.{
  Key, down, up, key_r, key_k, escape, key_l, tab, f11, f12, other_key, digit, KeyEvent, Action,
  World, Window, row_below, row_above, row_at, next_account, next_tab, on_key, key_press,
}

-- A current row is a row of its list.
abbrev pub IsRow : ℕ → Option ℕ → Type 0
IsRow n none = Unit
IsRow n (some row) = row < n

abbrev pub IsSound : Window → Type 0
IsSound s =
    IsRow s.rooms s.room_row × IsRow s.messages s.timeline_row × IsRow s.accounts s.account_row

row_below-IsRow : (n : ℕ) (row : Option ℕ) → IsRow n row → IsRow n (row_below n row)
unfolding row_below
row_below-IsRow n none h = if_rule (IsRow n) (ltb 0 n) (λ k. ground (arith, k)) (λ k. tt)
row_below-IsRow n (some row) h =
    if_rule (IsRow n) (ltb (suc row) n) (λ k. ground (arith, k)) (λ k. h)

row_above-IsRow : (n : ℕ) (row : Option ℕ) → IsRow n row → IsRow n (row_above row)
unfolding row_above
row_above-IsRow n none h = tt
row_above-IsRow n (some zero) h = h
row_above-IsRow n (some (suc row)) h = omega (arith, h)

row_at-IsRow : (k n : ℕ) (row : Option ℕ) → IsRow n row → IsRow n (row_at k n row)
unfolding row_at
row_at-IsRow k n row h = if_rule (IsRow n) (ltb k n) (λ b. ground (arith, b)) (λ b. h)

next_account-lt : (n : ℕ) (row : Option ℕ) → 0 < n → next_account n row < n
unfolding next_account
next_account-lt n none h = h
next_account-lt n (some row) h = ground (arith, h)

module _ (w : World) where
  -- The presses of keys, one after another, and what they ask for.
  abbrev pub press_all : List KeyEvent → Window → Window
  press_all [] s = s
  press_all (e ∷ es) s = press_all es (key_press w e s).0

  next_tab-IsSound : (s : Window) → IsSound s → IsSound (next_tab w s).0
  unfolding next_tab
  next_tab-IsSound s (r, m, a) =
      if_rule (λ (p : Window × List Action). IsSound p.0) (leb s.accounts 1) (λ k. (r, m, a))
        (λ k. (r, m, next_account-lt s.accounts s.account_row (ground (arith, k))))

  -- What a key leaves behind.
  abbrev After : Window × List Action × Bool → Type 0
  After p = IsSound p.0

  on_key-IsSound :
      (k : Key) (alt ctrl shift : Bool) (s : Window)
      → IsSound s
      → After (on_key w k alt ctrl shift s)
  unfolding on_key
  on_key-IsSound down alt ctrl shift s (r, m, a) =
      if_rule After alt (λ _. (row_below-IsRow s.rooms s.room_row r, m, a))
        (λ _.
          if_rule After ctrl (λ _. (r, row_below-IsRow s.messages s.timeline_row m, a))
            (λ _. (r, m, a)))
  on_key-IsSound up alt ctrl shift s (r, m, a) =
      if_rule After alt (λ _. (row_above-IsRow s.rooms s.room_row r, m, a))
        (λ _.
          if_rule After ctrl (λ _. (r, row_above-IsRow s.messages s.timeline_row m, a))
            (λ _. (r, m, a)))
  on_key-IsSound (digit n) alt ctrl shift s (r, m, a) =
      if_rule After ctrl (λ _. (row_at-IsRow n s.rooms s.room_row r, m, a)) (λ _. (r, m, a))
  on_key-IsSound key_r alt ctrl shift s h = if_rule After (ctrl && not shift) (λ _. h) (λ _. h)
  on_key-IsSound key_k alt ctrl shift s h =
      if_rule After (not ctrl) (λ _. h) (λ _. if_rule After shift (λ _. h) (λ _. h))
  on_key-IsSound escape alt ctrl shift s h = h
  on_key-IsSound key_l alt ctrl shift s h = if_rule After ctrl (λ _. h) (λ _. h)
  on_key-IsSound tab alt ctrl shift s h = if_rule After ctrl (λ _. next_tab-IsSound s h) (λ _. h)
  on_key-IsSound f11 alt ctrl shift s h = h
  on_key-IsSound f12 alt ctrl shift s h = h
  on_key-IsSound other_key alt ctrl shift s h = h

  -- Whatever keys are pressed, the current rows of the list of rooms, of the timeline and of the list of accounts stay
  -- rows of their lists.
  pub press_all-IsSound : (es : List KeyEvent) (s : Window) → IsSound s → IsSound (press_all es s)
  unfolding key_press
  press_all-IsSound [] s h = h
  press_all-IsSound (e ∷ es) s h =
      press_all-IsSound es (key_press w e s).0 (on_key-IsSound e.key e.alt e.ctrl e.shift s h)

  abbrev pub ctrl_tab : KeyEvent
  ctrl_tab = record { key = tab; alt = false; ctrl = true; shift = false }

  abbrev pub tabs : ℕ → List KeyEvent
  tabs zero = []
  tabs (suc n) = ctrl_tab ∷ tabs n

  next_tab-next_account :
      (i : ℕ) (s : Window)
      → 1 < s.accounts
      → s.account_row ≡ some i
      → (next_tab w s).0 ≡ record s { account_row = some (next_account s.accounts (some i)) }
  unfolding next_tab
  next_tab-next_account i s h e =
      let many : leb s.accounts 1 ≡ false = ground (arith, h) in rw (many, e) refl

  turn :
      (n i a : ℕ)
      → i < a
      → suc n ≤ a
      → (if ltb (next_account a (some i) + n) a
          then next_account a (some i) + n
          else next_account a (some i) + n - a)
        ≡ (if ltb (i + suc n) a then i + suc n else i + suc n - a)
  unfolding next_account
  turn n i a h k = ground arith

  -- Control and Tab go round the accounts: after `n` presses, up to one for each account, the account that many entries
  -- below the first one is current, counted on from the top behind the last; so each account has its turn,
  -- and the last press leads back to the first one.
  pub tabs_turn :
      (n i : ℕ) (s : Window)
      → 1 < s.accounts
      → i < s.accounts
      → n ≤ s.accounts
      → s.account_row ≡ some i
      → (press_all (tabs n) s).account_row
        ≡ some (if ltb (i + n) s.accounts then i + n else i + n - s.accounts)
  unfolding key_press on_key
  tabs_turn zero i s many h k e = ground (arith, e, h)
  tabs_turn (suc n) i s many h k e =
      let moved = record s { account_row = some (next_account s.accounts (some i)) } in
      let ih =
        tabs_turn n (next_account s.accounts (some i)) moved many
          (next_account-lt s.accounts (some i) (omega (arith, many))) (omega (arith, k)) refl in
      ap (λ (x : Window). (press_all (tabs n) x).account_row) (next_tab-next_account i s many e)
      ∙ ih
      ∙ ap some (turn n i s.accounts h k)
