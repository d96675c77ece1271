-- ===== src/Images/Fetches.antt =====
-- The coalescing of fetches in src/ui/shared/image_loader.cpp: who waits for which key, and who is
-- called when.
use progressive_desktop.Base.{
  ℕ, ◌+◌, ◌≡◌, refl, ap, inl, inr, true, false, Option, none, some, List, [], ◌∷◌, ◌++◌, arith,
  Text, text, ==_iff, ==-refl, ◌==◌, ◌&&◌, lookup, remove, contains, lookup-insert, lookup-remove,
  not, count_if, count_if-append, eqb, if◌then◌else◌, Option-cases,
}
use progressive_desktop.Images.{
  Loader, ImageCache, Callback, waiting, begin_fetch, is_failed, mark_failed, mark_fresh_upload,
  fetch_thumbnail, fetch_encrypted_thumbnail, finish, call_all, settle, begin, answered,
  unless_failed,
}

-- How often a callback stands in a list.
abbrev pub count : Callback → List Callback → ℕ
count c cbs = count_if (eqb c) cbs

module _ {Store : Type 0} where
  waiting-is_failed :
      (now : ℕ) (key k : Text) (s : Loader Store) → waiting k (is_failed now key s).1 ≡ waiting k s
  unfolding is_failed waiting
  waiting-is_failed now key k s = ground arith

  waiting-mark_failed :
      (now : ℕ) (key context reason k : Text) (s : Loader Store)
      → waiting k (mark_failed now key context reason s) ≡ waiting k s
  unfolding mark_failed waiting
  waiting-mark_failed now key context reason k s = ground arith

  -- A fetch starts a job exactly when none runs for its key; the callback waits either way, behind
  -- those that waited already, and nobody else's wait changes.
  pub begin_fetch_queues :
      (key k : Text) (cb : Callback) (s : Loader Store)
      → ((begin_fetch key cb s).0 ≡ not (contains key s.in_flight))
        × (contains key (begin_fetch key cb s).1.in_flight ≡ true)
        × (waiting k (begin_fetch key cb s).1
            ≡ (if key == k then waiting k s ++ cb ∷ [] else waiting k s))
  unfolding begin_fetch waiting
  begin_fetch_queues key k cb s = elim (Option-cases (lookup key s.in_flight)) [
    | inl e ↦ ground (
      arith,
      ==_iff key k,
      ==-refl key,
      lookup-insert key k (cb ∷ []) s.in_flight,
      lookup-insert key key (cb ∷ []) s.in_flight,
    )
    | inr (cbs, e) ↦ ground (
      arith,
      ==_iff key k,
      ==-refl key,
      lookup-insert key k (cbs ++ cb ∷ []) s.in_flight,
      lookup-insert key key (cbs ++ cb ∷ []) s.in_flight,
    )
  ]

module _ {Store : Type 0} where
  waiting-remove :
      (key k : Text) (s : Loader Store)
      → waiting k (record s { in_flight = remove key s.in_flight })
        ≡ (if key == k then [] else waiting k s)
  unfolding waiting
  waiting-remove key k s = ground (arith, lookup-remove key k s.in_flight)

abbrev pub callbacks : {Image : Type 0} → List (Callback × Option Image) → List Callback
callbacks [] = []
callbacks ((cb, img) ∷ calls) = cb ∷ callbacks calls

-- What happens to a loader, each with its time. A finished job brings its image, if there is one,
-- and its status.
pub data Event (Image : Type 0) : Type 0 where
  thumbnail : ℕ → Text → Callback → Event Image
  encrypted : ℕ → Text → Text → Text → Text → Callback → Event Image
  finished : ℕ → Text → Text → Text → Option Image → ℕ → Event Image
  marked : ℕ → Text → Text → Text → Event Image
  uploaded : Text → Event Image

module _ {Image : Type 0} (cache : ImageCache Image) (number : ℕ → Text)
    (decode : Text → Option Image) where
  -- The state after one event.
  unfoldable pub after : Event Image → Loader cache.Store → Loader cache.Store
  after (thumbnail now key cb) s = (fetch_thumbnail cache number decode now key cb s).state
  after (encrypted now url key iv context cb) s =
      (fetch_encrypted_thumbnail cache number decode now url key iv context cb s).state
  after (finished now key context retrying img status) s =
      (finish cache number decode now key context retrying (img, status) s).0
  after (marked now key context reason) s = mark_failed now key context reason s
  after (uploaded url) s = mark_fresh_upload url s

  -- The callbacks that one event calls for the key `k`.
  unfoldable pub called : Text → Event Image → Loader cache.Store → List Callback
  called k (thumbnail now key cb) s =
      if key == k then callbacks (fetch_thumbnail cache number decode now key cb s).called else []
  called k (encrypted now url key iv context cb) s =
      if url == k
      then callbacks
          (fetch_encrypted_thumbnail cache number decode now url key iv context cb s).called
      else []
  called k (finished now key context retrying img status) s =
      if key == k
      then callbacks (finish cache number decode now key context retrying (img, status) s).1
      else []
  called k _ s = []

  -- The requests for the key `k` by the callback `c` in one event.
  abbrev pub asked : Text → Callback → Event Image → ℕ
  asked k c (thumbnail now key cb) = if key == k && eqb c cb then 1 else 0
  asked k c (encrypted now url key iv context cb) = if url == k && eqb c cb then 1 else 0
  asked k c _ = 0

  unfoldable pub run : List (Event Image) → Loader cache.Store → Loader cache.Store
  run [] s = s
  run (e ∷ es) s = run es (after e s)

  abbrev pub total_asked : Text → Callback → List (Event Image) → ℕ
  total_asked k c [] = 0
  total_asked k c (e ∷ es) = asked k c e + total_asked k c es

  -- How often `c` is called for the key `k` along the way.
  unfoldable pub total_called : Text → Callback → List (Event Image) → Loader cache.Store → ℕ
  total_called k c [] s = 0
  total_called k c (e ∷ es) s = count c (called k e s) + total_called k c es (after e s)

  queued_or_called :
      (now : ℕ) (key k : Text) (cb c : Callback) (s : Loader cache.Store)
      → let f = unless_failed cache number decode now key cb s in
        count c (waiting k f.state) + (if key == k then count c (callbacks f.called) else 0)
        ≡ count c (waiting k s) + (if key == k && eqb c cb then 1 else 0)
  unfolding unless_failed answered begin
  queued_or_called now key k cb c s =
      let later = (is_failed now key s).1 in
      ground (
        arith,
        waiting-is_failed now key k s,
        begin_fetch_queues key k cb later,
        count_if-append (eqb c) (waiting k s) (cb ∷ []),
      )

  callbacks-call_all :
      (cbs : List Callback) (img : Option Image)
      → callbacks (call_all cache number decode cbs img) ≡ cbs
  unfolding call_all
  callbacks-call_all [] img = refl
  callbacks-call_all (cb ∷ cbs) img = ap (cb ∷◌) (callbacks-call_all cbs img)

  waiting-settle :
      (now : ℕ) (key k context retrying : Text) (img : Option Image) (status : ℕ)
      (s : Loader cache.Store)
      → waiting k (settle cache number decode now key context retrying img status s) ≡ waiting k s
  unfolding settle mark_failed waiting
  waiting-settle now key k context retrying (some img) status s = refl
  waiting-settle now key k context retrying none status s = ground arith

  -- One event neither loses a callback nor calls one twice.
  step_conserves :
      (k : Text) (c : Callback) (e : Event Image) (s : Loader cache.Store)
      → count c (waiting k (after e s)) + count c (called k e s)
        ≡ count c (waiting k s) + asked k c e
  unfolding after called
  step_conserves k c (thumbnail now key cb) s =
      unfold fetch_thumbnail answered in ground (arith, queued_or_called now key k cb c s)
  step_conserves k c (encrypted now url key iv context cb) s =
      unfold fetch_encrypted_thumbnail answered in
      ground (
        arith,
        queued_or_called now url k cb c s,
        waiting-mark_failed now url context (text "missing key/iv — no preview") k s,
      )
  step_conserves k c (finished now key context retrying img status) s =
      let s' = settle cache number decode now key context retrying img status s in
      unfold finish in
      ground (
        arith,
        ==_iff key k,
        waiting-remove key k s',
        waiting-settle now key k context retrying img status s,
        waiting-settle now key key context retrying img status s,
        callbacks-call_all (waiting key s') img,
      )
  step_conserves k c (marked now key context reason) s =
      ground (arith, waiting-mark_failed now key context reason k s)
  step_conserves k c (uploaded url) s = unfold mark_fresh_upload waiting in ground arith

  run_conserves :
      (k : Text) (c : Callback) (es : List (Event Image)) (s : Loader cache.Store)
      → count c (waiting k (run es s)) + total_called k c es s
        ≡ count c (waiting k s) + total_asked k c es
  unfolding run total_called
  run_conserves k c [] s = omega arith
  run_conserves k c (e ∷ es) s =
      omega (arith, step_conserves k c e s, run_conserves k c es (after e s))

  -- Along any sequence of requests, finished jobs, recorded failures and uploads, from a loader with
  -- nothing in flight: once no fetch of a key runs any more, each callback has been called for that
  -- key exactly as often as it asked for it.
  pub run_answers :
      (k : Text) (c : Callback) (es : List (Event Image)) (s : Loader cache.Store)
      → s.in_flight ≡ []
      → contains k (run es s).in_flight ≡ false
      → total_called k c es s ≡ total_asked k c es
  run_answers k c es s idle settled =
      omega
        (arith, run_conserves k c es s, nobody (run es s) settled, nobody s (rw idle lookup_nil))
    where
      nobody : (t : Loader cache.Store) → contains k t.in_flight ≡ false → count c (waiting k t) ≡ 0
      nobody t h = unfold waiting in ground arith

      lookup_nil : contains {V = List Callback} k [] ≡ false
      lookup_nil = unfold lookup in refl
