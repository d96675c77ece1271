-- ===== src/Accounts.antt =====
-- src/ui/handlers/account_switcher.cpp: the change to another account and the addition of one, with the
-- session store (core/session_store, by kind of session and by `user/device`) and the decryptor, whose
-- operations are the engine's: the fields of `Crypto`, where `init_saved` sets the number of uploaded
-- keys too. Client, store and room handler are there; the new client that the engine and the image
-- loader are given is the account.
pub mod Switching
pub mod Index
use progressive_desktop.Base.{
  ℕ, zero, suc, Bool, true, false, Option, none, some, List, [], ◌∷◌, ◌++◌, map, Text, text,
  is_empty, is_some, ◌==◌, not, ◌&&◌, ◌||◌, if◌then◌else◌, Map, lookup, insert, get_elem?,
}

pub record Account : Type 0 where
  pub user_id : Text
  pub device_id : Text

abbrev pub key_of : Account → Text
key_of a = a.user_id ++ text "/" ++ a.device_id

pub record SavedAccount : Type 0 where
  pub pickle : Text
  pub shared : Bool
  pub uploaded_key_count : ℕ

pub record Crypto (D : Type 0) : Type 0 where
  pub is_initialized : D → Bool
  pub pickle_megolm : Text → D → Text
  pub pickle_olm : Text → D → Text
  pub pickle_outbound : Text → D → Text
  pub pickle_account : Text → D → Text
  pub account_shared : D → Bool
  pub uploaded_key_count : D → ℕ
  pub init : D → D
  pub init_saved : SavedAccount → D → D
  pub unpickle_megolm : Text → Text → D → D
  pub unpickle_olm : Text → Text → D → D
  pub unpickle_outbound : Text → Text → D → D

pub record Sessions : Type 0 where
  pub megolm : Map Text
  pub olm : Map Text
  pub outbound : Map Text
  pub accounts : Map SavedAccount

-- What the switcher reads and changes of the window; `listed` is `listAccounts` of the store.
pub record App (D : Type 0) : Type 0 where
  pub account : Account
  pub listed : List Account
  pub sessions : Sessions
  pub decryptor : Option D
  pub running : Bool
  pub device_keys_uploaded : Bool
  pub rooms : List Text
  pub timeline : List Text
  pub member_avatars : Map Text
  pub current_room : Text
  pub timeline_shown : Bool
  pub placeholder_shown : Bool
  pub composer_shown : Bool
  pub combo_enabled : Bool
  pub combo_items : List Text
  pub combo_index : ℕ
  pub my_user_id : Text

-- An empty pickle is not saved.
abbrev pub save : Text → Text → Map Text → Map Text
save key pickle m = if is_empty pickle then m else insert key pickle m

abbrev pub index_of_user : Text → List Account → Option ℕ
index_of_user user [] = none
index_of_user user (x ∷ xs) =
    let rest : Option ℕ = elim (index_of_user user xs) [ none ↦ none | some i ↦ some (suc i) ] in
    if x.user_id == user then some 0 else rest

-- The loop that fills the menu keeps the last entry that matches.
abbrev pub last_index_of_user : Text → List Account → Option ℕ
last_index_of_user user [] = none
last_index_of_user user (x ∷ xs) = elim (last_index_of_user user xs) [
  | none ↦ if x.user_id == user then some 0 else none
  | some i ↦ some (suc i)
]

module _ {D : Type 0} where
  -- Everything that shows the account that is left.
  unfoldable pub clear_views : App D → App D
  clear_views a = record a {
    rooms = [];
    timeline = [];
    timeline_shown = false;
    placeholder_shown = true;
    composer_shown = false;
    current_room = [];
    member_avatars = [];
  }

  unfoldable pub start_sync : App D → App D
  start_sync a = record a { running = true; combo_enabled = true }

  unfoldable pub current_account_index : App D → ℕ
  current_account_index a = elim (index_of_user a.account.user_id a.listed) [
    | none ↦ 0
    | some i ↦ i
  ]

module _ {D : Type 0} (c : Crypto D) where
  unfoldable pub saved_account : Text → D → SavedAccount
  saved_account key d = record {
    pickle = c.pickle_account key d;
    shared = c.account_shared d;
    uploaded_key_count = c.uploaded_key_count d;
  }

  unfoldable pub save_sessions : Text → D → Sessions → Sessions
  unfolding saved_account
  save_sessions key d s = record {
    megolm = save key (c.pickle_megolm key d) s.megolm;
    olm = save key (c.pickle_olm key d) s.olm;
    outbound =
        if c.pickle_outbound key d == text "[]"
        then s.outbound
        else save key (c.pickle_outbound key d) s.outbound;
    accounts =
        if is_empty (c.pickle_account key d)
        then s.accounts
        else insert key (saved_account key d) s.accounts;
  }

  -- Only an initialised decryptor has anything to save.
  unfoldable pub save_all : Text → Option D → Sessions → Sessions
  unfolding save_sessions
  save_all key none s = s
  save_all key (some d) s = if c.is_initialized d then save_sessions key d s else s

  abbrev pub unpickle : (Text → D → D) → Option Text → D → D
  unpickle f none d = d
  unpickle f (some p) d = f p d

  abbrev pub init_from : Option SavedAccount → D → D
  init_from none d = c.init d
  init_from (some a) d = c.init_saved a d

  unfoldable pub load_sessions : Text → Sessions → D → D
  load_sessions key s d = unpickle (c.unpickle_outbound key) (lookup key s.outbound) (
      unpickle (c.unpickle_olm key) (lookup key s.olm) (
        unpickle (c.unpickle_megolm key) (lookup key s.megolm)
          (init_from (lookup key s.accounts) d)))

  unfoldable pub enter_account : ℕ → Account → App D → App D
  unfolding save_all clear_views load_sessions start_sync
  enter_account index acct a =
      let saved = save_all (key_of a.account) a.decryptor a.sessions in
      let cleared = clear_views a in
      start_sync (record cleared {
        account = acct;
        sessions = saved;
        decryptor = elim a.decryptor [
          | none ↦ none
          | some d ↦ some (load_sessions (key_of acct) saved d)
        ];
        device_keys_uploaded = is_some a.decryptor || a.device_keys_uploaded;
        my_user_id = acct.user_id;
        combo_index = index;
      })

  -- The menu's index; a negative one is `none`.
  unfoldable pub switch_account : Option ℕ → App D → App D
  unfolding enter_account
  switch_account none a = a
  switch_account (some index) a = elim (get_elem? a.listed index) [
    | none ↦ a
    | some acct ↦ if acct.user_id == a.account.user_id then a else enter_account index acct a
  ]

  -- The argument is what the login dialog answers: the account that it logged in, and the accounts of
  -- the store then. The separator of the menu is an empty item.
  unfoldable pub add_account : Option (Account × List Account) → App D → App D
  unfolding save_all clear_views start_sync
  add_account none a =
      start_sync (record a { sessions = save_all (key_of a.account) a.decryptor a.sessions })
  add_account (some (acct, listed)) a =
      let cleared = clear_views a in
      start_sync (record cleared {
        account = acct;
        listed = listed;
        sessions = save_all (key_of a.account) a.decryptor a.sessions;
        combo_items =
            map (λ (x : Account). x.user_id) listed
            ++ [] ∷ text "+ Add Account" ∷ text "Logout" ∷ [];
        combo_index = elim (last_index_of_user acct.user_id listed) [ none ↦ 0 | some i ↦ i ];
        decryptor = elim a.decryptor [ none ↦ none | some d ↦ some (c.init d) ];
        device_keys_uploaded = true;
        my_user_id = acct.user_id;
      })
