-- ===== src/Images/Failures.antt =====
-- The negative cache of src/ui/shared/image_loader.cpp: what enters it, for how long, and what never
-- does.
use progressive_desktop.Base.{
  ℕ, ◌+◌, ◌≤◌, ◌<◌, ◌≡◌, ◌≢◌, ◌⊎◌, inl, inr, true, false, Option, none, arith, Text, ==-refl,
  length, lookup, contains, lookup-insert, length-insert, length-insert_present,
  length-insert_absent, Bool-cases, ltb, ◌||◌,
}
use progressive_desktop.Images.{
  Loader, ImageCache, max_failed_entries, max_fresh_uploads, mark_fresh_upload, is_failed, cooldown,
  mark_failed, finish, fetch_encrypted_thumbnail,
}

module _ {Store : Type 0} where
  -- An own upload is never recorded as failed, and never counts as failed: a recorded failure does
  -- not stop the next paint from fetching it.
  pub fresh_upload_retries :
      (now later : ℕ) (key context reason : Text) (s : Loader Store)
      → contains key s.fresh ≡ true
      → (mark_failed now key context reason s ≡ s) × (is_failed later key s ≡ (false, s))
  unfolding mark_failed is_failed
  fresh_upload_retries now later key context reason s h = ground arith

  -- A failure that is recorded while the table has room holds up every fetch of its key until the
  -- cooldown of its context is over, and none after that.
  mark_failed_until :
      (now later : ℕ) (key context reason : Text) (s : Loader Store)
      → contains key s.fresh ≡ false
      → length s.failed_until < max_failed_entries
      → (is_failed later key (mark_failed now key context reason s)).0
        ≡ ltb later (now + cooldown context)
  unfolding mark_failed is_failed
  mark_failed_until now later key context reason s fresh room = ground (
    arith,
    length-insert key (now + cooldown context) s.failed_until,
    lookup-insert key key (now + cooldown context) s.failed_until,
    ==-refl key,
  )

  -- The set of own uploads has room for 512. A new upload that would be the 513th empties the set,
  -- itself included; in every other case the upload is exempt afterwards.
  mark_fresh_upload_exempts :
      (url : Text) (s : Loader Store)
      → length s.fresh ≤ max_fresh_uploads
      → contains url (mark_fresh_upload url s).fresh
        ≡ (contains url s.fresh || ltb (length s.fresh) max_fresh_uploads)
  unfolding mark_fresh_upload lookup
  mark_fresh_upload_exempts url s h = elim (Bool-cases (contains url s.fresh)) [
    | inl old ↦ ground (
      arith,
      length-insert_present url tt s.fresh old,
      lookup-insert url url tt s.fresh,
      ==-refl url,
    )
    | inr new ↦ ground (
      arith,
      length-insert_absent url tt s.fresh new,
      lookup-insert url url tt s.fresh,
      ==-refl url,
    )
  ]

module _ {Image : Type 0} (cache : ImageCache Image) (number : ℕ → Text)
    (decode : Text → Option Image) where
  -- A fetch that ends with an image or with a status below 400 (a lost connection, a key that is
  -- not there yet) leaves the negative cache as it was, so the next paint may try again.
  pub finish_retries :
      (now : ℕ) (key context retrying : Text) (img : Option Image) (status : ℕ)
      (s : Loader cache.Store)
      → (img ≢ none) ⊎ (status < 400)
      → (finish cache number decode now key context retrying (img, status) s).0.failed_until
        ≡ s.failed_until
  unfolding finish
  finish_retries now key context retrying img status s h = ground arith

  -- A fetch that ends in an HTTP error holds up the key for the cooldown of its context.
  pub finish_http_error :
      (now later : ℕ) (key context retrying : Text) (status : ℕ) (s : Loader cache.Store)
      → 400 ≤ status
      → contains key s.fresh ≡ false
      → length s.failed_until < max_failed_entries
      → (is_failed later key
          (finish cache number decode now key context retrying (none, status) s).0).0
        ≡ ltb later (now + cooldown context)
  unfolding finish is_failed mark_failed
  finish_http_error now later key context retrying status s err fresh room = ground (
    arith,
    length-insert key (now + cooldown context) s.failed_until,
    lookup-insert key key (now + cooldown context) s.failed_until,
    ==-refl key,
  )

  -- An encrypted thumbnail that is asked for while no client is set is recorded as failed, though
  -- no HTTP request was made and its key and iv are at hand: once a client is there it is held up
  -- for the cooldown all the same.
  pub fetch_encrypted_no_client :
      (now later : ℕ) (url key iv context : Text) (cb : ℕ) (s : Loader cache.Store)
      → s.has_client ≡ false
      → cache.object url s.images ≡ none
      → contains url s.fresh ≡ false
      → length s.failed_until < max_failed_entries
      → let s' =
          (fetch_encrypted_thumbnail cache number decode now url key iv context cb s).state in
        (is_failed later url (record s' { has_client = true })).0
        ≡ ltb later (now + cooldown context)
  unfolding fetch_encrypted_thumbnail is_failed mark_failed
  fetch_encrypted_no_client now later url key iv context cb s client miss fresh room = ground (
    arith,
    length-insert url (now + cooldown context) s.failed_until,
    lookup-insert url url (now + cooldown context) s.failed_until,
    ==-refl url,
  )
