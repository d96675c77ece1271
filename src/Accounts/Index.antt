-- ===== src/Accounts/Index.antt =====
-- The index of the open account in the menu: src/ui/handlers/account_switcher.cpp.
use progressive_desktop.Base.{
  ℕ, zero, suc, ◌≡◌, refl, Bool, true, false, some, List, [], ◌∷◌, arith, Text, ◌==◌, get_elem?,
  Option-cases, is_some, inl, inr,
}
use progressive_desktop.Accounts.{
  Account, App, Crypto, index_of_user, current_account_index, switch_account,
}

-- The entry at the index is an account of the user.
abbrev pub points_at : Text → List Account → ℕ → Bool
points_at user [] i = false
points_at user (x ∷ xs) zero = x.user_id == user
points_at user (x ∷ xs) (suc i) = points_at user xs i

index_of_user-points_at :
    (user : Text) (xs : List Account) (i : ℕ)
    → index_of_user user xs ≡ some i
    → points_at user xs i ≡ true
index_of_user-points_at user [] i h = cc
index_of_user-points_at user (x ∷ xs) zero h = ground arith
index_of_user-points_at user (x ∷ xs) (suc i) h = ground (arith, index_of_user-points_at user xs i)

index_of_user_found :
    (user : Text) (xs : List Account) (i : ℕ)
    → points_at user xs i ≡ true
    → is_some (index_of_user user xs) ≡ true
index_of_user_found user [] i h = cc
index_of_user_found user (x ∷ xs) zero h = ground arith
index_of_user_found user (x ∷ xs) (suc i) h = ground (arith, index_of_user_found user xs i h)

module _ {D : Type 0} where
  -- Where the store lists an account of the open user, the index points to an account of that user.
  pub current_account_index-points_at :
      (a : App D) (i : ℕ)
      → points_at a.account.user_id a.listed i ≡ true
      → points_at a.account.user_id a.listed (current_account_index a) ≡ true
  unfolding current_account_index
  current_account_index-points_at a i h =
      let found = index_of_user_found a.account.user_id a.listed i h in
      elim (Option-cases (index_of_user a.account.user_id a.listed)) [
        | inl n ↦ ground (arith, n, found)
        | inr (j, e) ↦
            rw (current_account_index, e) (index_of_user-points_at a.account.user_id a.listed j e)
      ]

module _ {D : Type 0} (c : Crypto D) where
  -- An account of the same user on another device cannot be switched to: nothing changes.
  pub switch_account_same_user :
      (a : App D) (index : ℕ) (other : Account)
      → get_elem? a.listed index ≡ some other
      → (other.user_id == a.account.user_id) ≡ true
      → switch_account c (some index) a ≡ a
  unfolding switch_account
  switch_account_same_user a index other e h = rw (switch_account, e, h) refl
