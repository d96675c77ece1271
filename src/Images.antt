-- ===== src/Images.antt =====
-- src/ui/shared/image_loader.cpp and image_loader.hpp: the image cache, the negative cache of failed
-- fetches, the coalescing of concurrent fetches and the pool of movies. Times are milliseconds.
pub mod Failures
pub mod Fetches
pub mod Bounds
use progressive_desktop.Base.{
  ℕ, ◌+◌, ◌*◌, Bool, true, false, Option, none, some, List, [], ◌∷◌, ◌++◌, map, Text, text,
  is_empty, not, ◌&&◌, ◌||◌, if◌then◌else◌, ◌==◌, ltb, leb, eqb, length, Map, lookup, insert,
  remove, contains, is_some,
}

abbrev pub failed_mxc_cooldown : ℕ
failed_mxc_cooldown = 60 * 60 * 1000

abbrev pub failed_avatar_cooldown : ℕ
failed_avatar_cooldown = 10 * 60 * 1000

abbrev pub failed_image_cooldown : ℕ
failed_image_cooldown = 5 * 60 * 1000

abbrev pub max_cached_movies : ℕ
max_cached_movies = 20

abbrev pub max_failed_entries : ℕ
max_failed_entries = 1024

abbrev pub max_fresh_uploads : ℕ
max_fresh_uploads = 512

-- A callback is known by a number.
abbrev pub Callback : Type 0
Callback = ℕ

-- `QCache`, whose eviction is Qt's.
pub record ImageCache (Image : Type 0) : Type 1 where
  pub Store : Type 0
  pub object : Text → Store → Option Image
  pub put : Text → Image → Store → Store

-- `fresh` is the process-wide set of own uploads. `movies` holds the pool of movies in the order
-- in which the hash enumerates them.
pub record Loader (Store : Type 0) : Type 0 where
  pub has_client : Bool
  pub images : Store
  pub fresh : Map (Unit {0})
  pub failed_until : Map ℕ
  pub failed_reason : Map Text
  pub in_flight : Map (List Callback)
  pub movies : Map ℕ

-- The result of a download; a status of 0 stands for a failure below HTTP.
pub record Download : Type 0 where
  pub ok : Bool
  pub http_status : ℕ
  pub bytes : Text

unfoldable pub cooldown : Text → ℕ
cooldown context =
    if context == text "avatar" || context == text "room avatar"
    then failed_avatar_cooldown
    else if context == text "timeline image"
    then failed_image_cooldown
    else failed_mxc_cooldown

visible_reason : Text → Text → Text
visible_reason context reason =
    if is_empty reason then (if is_empty context then text "fetch failed" else context) else reason

drop_first : Map ℕ → Map ℕ
drop_first [] = []
drop_first (m ∷ ms) = ms

-- The first movie of the pool makes room for a new one.
with_room : Text → Map ℕ → Map ℕ
unfolding drop_first
with_room key pool =
    if leb max_cached_movies (length pool) && not (contains key pool) then drop_first pool else pool

module _ {Store : Type 0} where
  unfoldable pub mark_fresh_upload : Text → Loader Store → Loader Store
  mark_fresh_upload url s =
      let set = insert url tt s.fresh in
      record s { fresh = if ltb max_fresh_uploads (length set) then [] else set }

  -- An entry whose time is over is dropped on the way.
  unfoldable pub is_failed : ℕ → Text → Loader Store → Bool × Loader Store
  is_failed now key s =
      if contains key s.fresh then (false, s) else elim (lookup key s.failed_until) [
        | none ↦ (false, s)
        | some until ↦
            if leb until now
            then (
              false,
              record s {
                failed_until = remove key s.failed_until;
                failed_reason = remove key s.failed_reason;
              },
            )
            else (true, s)
      ]

  -- Beyond the cap both tables are dropped whole.
  capped : Loader Store → Loader Store
  capped s =
      if ltb max_failed_entries (length s.failed_until)
      then record s { failed_until = []; failed_reason = [] }
      else s

  unfoldable pub mark_failed : ℕ → Text → Text → Text → Loader Store → Loader Store
  unfolding cooldown visible_reason capped
  mark_failed now key context reason s =
      if contains key s.fresh
      then s
      else capped (record s {
        failed_until = insert key (now + cooldown context) s.failed_until;
        failed_reason = insert key (visible_reason context reason) s.failed_reason;
      })

  unfoldable pub failure_reason : Text → Loader Store → Text
  failure_reason url s = elim (lookup url s.failed_reason) [ none ↦ [] | some reason ↦ reason ]

  -- The callbacks that wait for a fetch of this key.
  unfoldable pub waiting : Text → Loader Store → List Callback
  waiting key s = elim (lookup key s.in_flight) [ none ↦ [] | some cbs ↦ cbs ]

  -- Starts a fetch, or queues behind the one that runs; the flag is true if it starts one.
  unfoldable pub begin_fetch : Text → Callback → Loader Store → Bool × Loader Store
  begin_fetch key cb s = elim (lookup key s.in_flight) [
    | some cbs ↦ (false, record s { in_flight = insert key (cbs ++ cb ∷ []) s.in_flight })
    | none ↦ (true, record s { in_flight = insert key (cb ∷ []) s.in_flight })
  ]

-- `number` prints a status in decimal, and `decode` is `QImage::loadFromData`, `none` for a null
-- image.
module _ {Image : Type 0} (cache : ImageCache Image) (number : ℕ → Text)
    (decode : Text → Option Image) where
  open cache use {Store, object, put}

  -- What a fetch does at once: the callbacks that it calls, and whether it starts a job.
  pub record Fetched : Type 0 where
    pub state : Loader Store
    pub called : List (Callback × Option Image)
    pub started : Bool

  answered : Loader Store → Callback → Option Image → Fetched
  answered s cb img = record { state = s; called = (cb, img) ∷ []; started = false }

  begin : Text → Callback → Loader Store → Fetched
  begin key cb s =
      let (started, s') = begin_fetch key cb s in
      record { state = s'; called = []; started = started }

  unless_failed : ℕ → Text → Callback → Loader Store → Fetched
  unfolding answered begin
  unless_failed now key cb s =
      let (failed, s') = is_failed now key s in
      if failed then answered s' cb none else begin key cb s'

  unfoldable pub fetch_thumbnail : ℕ → Text → Callback → Loader Store → Fetched
  unfolding answered unless_failed
  fetch_thumbnail now key cb s = elim (object key s.images) [
    | some img ↦ answered s cb (some img)
    | none ↦ if s.has_client then unless_failed now key cb s else answered s cb none
  ]

  -- `key`, `iv` and `context` are those of the encrypted file, `url` its address.
  unfoldable pub fetch_encrypted_thumbnail :
      ℕ → Text → Text → Text → Text → Callback → Loader Store → Fetched
  unfolding answered unless_failed
  fetch_encrypted_thumbnail now url key iv context cb s = elim (object url s.images) [
    | some img ↦ answered s cb (some img)
    | none ↦
        if not s.has_client || is_empty key || is_empty iv
        then answered (mark_failed now url context (text "missing key/iv — no preview") s) cb none
        else unless_failed now url cb s
  ]

  decoded : Download → Option Image
  decoded d = if d.ok && not (is_empty d.bytes) then decode d.bytes else none

  -- The job of `fetchThumbnail`: the thumbnail, and the full file where it fails. `small` and `full`
  -- are the two downloads; `sized` says that a width or height was asked for.
  unfoldable pub thumbnail_job : Download → Download → Bool → Text → Option Image × ℕ
  unfolding decoded
  thumbnail_job small full sized context =
      if not (is_some (decoded small)) && sized && not (context == text "timeline video")
      then (
        decoded full,
        if full.ok && not (is_empty full.bytes) then small.http_status else full.http_status,
      )
      else (decoded small, small.http_status)

  unfoldable pub encrypted_job : Download → Option Image × ℕ
  unfolding decoded
  encrypted_job d = (decoded d, d.http_status)

  call_all : List Callback → Option Image → List (Callback × Option Image)
  call_all [] img = []
  call_all (cb ∷ cbs) img = (cb, img) ∷ call_all cbs img

  settle : ℕ → Text → Text → Text → Option Image → ℕ → Loader Store → Loader Store
  settle now key context retrying (some img) status s = record s {
    images = put key img s.images;
    failed_reason = remove key s.failed_reason;
  }
  settle now key context retrying none status s =
      if leb 400 status
      then mark_failed now key context (text "HTTP " ++ number status) s
      else record s { failed_reason = insert key retrying s.failed_reason }

  -- The callback of a job, on the interface thread: the result is recorded and everybody who waits
  -- for the key is called.
  unfoldable pub finish :
      ℕ
      → Text
      → Text
      → Text
      → Option Image × ℕ
      → Loader Store
      → Loader Store × List (Callback × Option Image)
  unfolding settle call_all
  finish now key context retrying (img, status) s =
      let s' = settle now key context retrying img status s in
      (record s' { in_flight = remove key s'.in_flight }, call_all (waiting key s') img)

  unfoldable pub finish_thumbnail :
      ℕ
      → Text
      → Text
      → Option Image × ℕ
      → Loader Store
      → Loader Store × List (Callback × Option Image)
  unfolding finish
  finish_thumbnail now key context =
      finish now key context (text "network/decrypt failed — retrying")

  unfoldable pub finish_encrypted :
      ℕ
      → Text
      → Text
      → Option Image × ℕ
      → Loader Store
      → Loader Store × List (Callback × Option Image)
  unfolding finish
  finish_encrypted now key context = finish now key context (text "decrypt failed — retrying")

  unfoldable pub has_image : Text → Loader Store → Bool
  has_image url s = is_some (object url s.images)

  unfoldable pub get_cached : Text → Loader Store → Option Image
  get_cached url s = object url s.images

-- `fetchMovie`: what it answers at once, `none` where it starts a download.
module _ {Store : Type 0} where
  unfoldable pub fetch_movie : ℕ → Text → Loader Store → Option (Option ℕ) × Loader Store
  fetch_movie now key s = elim (lookup key s.movies) [
    | some movie ↦ (some (some movie), s)
    | none ↦
        let (failed, s') = is_failed now key s in
        if not s.has_client then (some none, s) else if failed then (some none, s') else (none, s')
  ]

  -- `movie` is the movie made of the bytes.
  unfoldable pub finish_movie : ℕ → Text → Download → ℕ → Loader Store → Option ℕ × Loader Store
  unfolding with_room
  finish_movie now key d movie s =
      if not d.ok || is_empty d.bytes
      then (none, if leb 400 d.http_status then mark_failed now key (text "movie") [] s else s)
      else (some movie, record s { movies = insert key movie (with_room key s.movies) })
