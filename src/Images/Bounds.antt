-- ===== src/Images/Bounds.antt =====
-- The limits that src/ui/shared/image_loader.cpp sets to its tables.
use progressive_desktop.Base.{
  ℕ, ◌≤◌, inl, inr, Option, none, some, List, [], ◌∷◌, ◌++◌, arith, Text, text, length, Map, insert,
  contains, length-insert, length-remove, length-insert_present, Bool-cases,
}
use progressive_desktop.Images.{
  Loader, ImageCache, max_failed_entries, max_fresh_uploads, max_cached_movies, mark_fresh_upload,
  is_failed, mark_failed, begin_fetch, fetch_thumbnail, fetch_encrypted_thumbnail, unless_failed,
  answered, begin, finish, settle, finish_movie, Download, drop_first, with_room,
}
use progressive_desktop.Images.Fetches.{
  Event, thumbnail, encrypted, finished, marked, uploaded, after, run,
}

-- No table outgrows its limit.
pub record IsBounded {Store : Type 0} (s : Loader Store) : Type 0 where
  pub failures : length s.failed_until ≤ max_failed_entries
  pub uploads : length s.fresh ≤ max_fresh_uploads
  pub films : length s.movies ≤ max_cached_movies

with_room-length :
    (key : Text) (movie : ℕ) (pool : Map ℕ)
    → length pool ≤ max_cached_movies
    → length (insert key movie (with_room key pool)) ≤ max_cached_movies
unfolding with_room drop_first
with_room-length key movie [] h = ground (arith, length-insert key movie [])
with_room-length key movie (m ∷ pool) h = elim (Bool-cases (contains key (m ∷ pool))) [
  | inl old ↦ ground (arith, length-insert_present key movie (m ∷ pool) old)
  | inr new ↦ ground (arith, length-insert key movie pool, length-insert key movie (m ∷ pool))
]

module _ {Store : Type 0} where
  mark_fresh_upload-IsBounded :
      (url : Text) (s : Loader Store) → IsBounded s → IsBounded (mark_fresh_upload url s)
  unfolding mark_fresh_upload
  mark_fresh_upload-IsBounded url s v = ground arith

  mark_failed-IsBounded :
      (now : ℕ) (key context reason : Text) (s : Loader Store)
      → IsBounded s
      → IsBounded (mark_failed now key context reason s)
  unfolding mark_failed
  mark_failed-IsBounded now key context reason s v = ground arith

  is_failed-IsBounded :
      (now : ℕ) (key : Text) (s : Loader Store) → IsBounded s → IsBounded (is_failed now key s).1
  unfolding is_failed
  is_failed-IsBounded now key s v = ground (arith, length-remove key s.failed_until)

  begin_fetch-IsBounded :
      (key : Text) (cb : ℕ) (s : Loader Store) → IsBounded s → IsBounded (begin_fetch key cb s).1
  unfolding begin_fetch
  begin_fetch-IsBounded key cb s v = ground arith

  -- A download of a movie, finished in whatever way, keeps every table within its limit: 20 movies,
  -- 1024 failures, 512 uploads.
  pub finish_movie-IsBounded :
      (now : ℕ) (key : Text) (d : Download) (movie : ℕ) (s : Loader Store)
      → IsBounded s
      → IsBounded (finish_movie now key d movie s).1
  unfolding finish_movie
  finish_movie-IsBounded now key d movie s v = ground (
    arith,
    with_room-length key movie s.movies,
    mark_failed-IsBounded now key (text "movie") [] s v,
  )

module _ {Image : Type 0} (cache : ImageCache Image) (number : ℕ → Text)
    (decode : Text → Option Image) where
  unless_failed-IsBounded :
      (now : ℕ) (key : Text) (cb : ℕ) (s : Loader cache.Store)
      → IsBounded s
      → IsBounded (unless_failed cache number decode now key cb s).state
  unfolding unless_failed answered begin
  unless_failed-IsBounded now key cb s v =
      let v' = is_failed-IsBounded now key s v in
      ground (arith, begin_fetch-IsBounded key cb (is_failed now key s).1 v')

  after-IsBounded :
      (e : Event Image) (s : Loader cache.Store)
      → IsBounded s
      → IsBounded (after cache number decode e s)
  unfolding after
  after-IsBounded (thumbnail now key cb) s v =
      unfold fetch_thumbnail answered in ground (arith, unless_failed-IsBounded now key cb s v)
  after-IsBounded (encrypted now url key iv context cb) s v =
      unfold fetch_encrypted_thumbnail answered in
      ground (
        arith,
        unless_failed-IsBounded now url cb s v,
        mark_failed-IsBounded now url context (text "missing key/iv — no preview") s v,
      )
  after-IsBounded (finished now key context retrying (some img) status) s v =
      unfold finish settle in ground arith
  after-IsBounded (finished now key context retrying none status) s v =
      unfold finish settle in
      ground (arith, mark_failed-IsBounded now key context (text "HTTP " ++ number status) s v)
  after-IsBounded (marked now key context reason) s v =
      mark_failed-IsBounded now key context reason s v
  after-IsBounded (uploaded url) s v = mark_fresh_upload-IsBounded url s v

  -- No sequence of requests, finished jobs, recorded failures and uploads takes a table over its
  -- limit.
  pub run-IsBounded :
      (es : List (Event Image)) (s : Loader cache.Store)
      → IsBounded s
      → IsBounded (run cache number decode es s)
  unfolding run
  run-IsBounded [] s v = v
  run-IsBounded (e ∷ es) s v =
      run-IsBounded es (after cache number decode e s) (after-IsBounded e s v)
