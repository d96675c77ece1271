-- ===== src/Accounts/Switching.antt =====
-- What a change of the account keeps and forgets: src/ui/handlers/account_switcher.cpp.
use progressive_desktop.Base.{
  ℕ, ◌≡◌, refl, ◌∙◌, true, false, Option, none, some, [], Text, text, is_empty, ◌==◌, if_rule, Map,
  lookup, insert, lookup-insert, get_elem?,
}
use progressive_desktop.Accounts.{
  Account, key_of, Crypto, Sessions, App, save, saved_account, save_sessions, save_all,
  switch_account,
}

-- The two stores hold the same for a key.
abbrev pub IsSameFor : Text → Sessions → Sessions → Type 0
IsSameFor k s t =
    (lookup k s.megolm ≡ lookup k t.megolm)
    × (lookup k s.olm ≡ lookup k t.olm)
    × (lookup k s.outbound ≡ lookup k t.outbound)
    × (lookup k s.accounts ≡ lookup k t.accounts)

insert_other {ℓ} :
    {V : Type ℓ} (key k : Text) (v : V) (m : Map V)
    → (key == k) ≡ false
    → lookup k (insert key v m) ≡ lookup k m
insert_other key k v m n = lookup-insert key k v m ∙ rw n refl

save_other :
    (key k p : Text) (m : Map Text) → (key == k) ≡ false → lookup k (save key p m) ≡ lookup k m
save_other key k p m n =
    if_rule (λ t. lookup k t ≡ lookup k m) (is_empty p) (λ h. refl) (λ h. insert_other key k p m n)

module _ {D : Type 0} (c : Crypto D) where
  save_sessions_other :
      (key k : Text) (d : D) (s : Sessions)
      → (key == k) ≡ false
      → IsSameFor k (save_sessions c key d s) s
  unfolding save_sessions
  save_sessions_other key k d s n =
      let megolm = save_other key k (c.pickle_megolm key d) s.megolm n in
      let olm = save_other key k (c.pickle_olm key d) s.olm n in
      (
        megolm,
        olm,
        if_rule (λ t. lookup k t ≡ lookup k s.outbound) (c.pickle_outbound key d == text "[]")
            (λ h. refl) (λ h. save_other key k (c.pickle_outbound key d) s.outbound n),
        if_rule (λ t. lookup k t ≡ lookup k s.accounts) (is_empty (c.pickle_account key d))
            (λ h. refl) (λ h. insert_other key k (saved_account c key d) s.accounts n),
      )

  save_all_other :
      (key k : Text) (d : Option D) (s : Sessions)
      → (key == k) ≡ false
      → IsSameFor k (save_all c key d s) s
  unfolding save_all
  save_all_other key k none s n = (refl, refl, refl, refl)
  save_all_other key k (some d) s n =
      if_rule (λ t. IsSameFor k t s) (c.is_initialized d) (λ h. save_sessions_other key k d s n)
        (λ h. (refl, refl, refl, refl))

  -- After a change to another user's account nothing of the old one is shown, the engine runs again for
  -- the new account, and the stored sessions of every account but the one that was left are the same.
  pub switch_account_isolates :
      (a : App D) (index : ℕ) (acct : Account) (k : Text)
      → get_elem? a.listed index ≡ some acct
      → (acct.user_id == a.account.user_id) ≡ false
      → (key_of a.account == k) ≡ false
      → let b = switch_account c (some index) a in
        (b.account ≡ acct)
        × (b.my_user_id ≡ acct.user_id)
        × (b.running ≡ true)
        × (b.rooms ≡ [])
        × (b.timeline ≡ [])
        × (b.member_avatars ≡ [])
        × (b.current_room ≡ [])
        × (b.composer_shown ≡ false)
        × IsSameFor k b.sessions a.sessions
  unfolding switch_account
  switch_account_isolates a index acct k e h n =
      rw (switch_account, e, h)
        (
          refl,
          refl,
          refl,
          refl,
          refl,
          refl,
          refl,
          refl,
          save_all_other (key_of a.account) k a.decryptor a.sessions n,
        )

  -- A decryptor whose four pickles under the key are there to be saved.
  abbrev pub IsSaved : Text → D → Type 0
  IsSaved key d =
      (is_empty (c.pickle_megolm key d) ≡ false)
      × (is_empty (c.pickle_olm key d) ≡ false)
      × (is_empty (c.pickle_outbound key d) ≡ false)
      × ((c.pickle_outbound key d == text "[]") ≡ false)
      × (is_empty (c.pickle_account key d) ≡ false)
      × (c.is_initialized d ≡ true)

  -- The decryptor `d'` after it is initialised and filled with what `d` pickles under the key.
  abbrev pub restored : Text → D → D → D
  restored key d d' = c.unpickle_outbound key (c.pickle_outbound key d) (
      c.unpickle_olm key (c.pickle_olm key d)
        (c.unpickle_megolm key (c.pickle_megolm key d) (c.init_saved (saved_account c key d) d')))
