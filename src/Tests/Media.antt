-- ===== src/Tests/Media.antt =====
-- Examples for the image loader.
use progressive_desktop.Base.{
  ℕ, ◌≡◌, refl, true, Option, none, some, List, [], ◌∷◌, arith, Text, ◌==◌, lookup, insert, remove,
}
use progressive_desktop.Tests.{letter, unary}
use progressive_desktop.Images.{Loader, ImageCache, is_failed, fetch_thumbnail, finish, begin_fetch}
use progressive_desktop.Images.Fetches.{Event, run, after, total_called, total_asked, run_answers}
use progressive_desktop.Images.Bounds.{IsBounded, run-IsBounded}

-- A cache that holds the last image.
abbrev cache : ImageCache ℕ
cache = record { Store = Option ℕ; object = λ url s. none; put = λ url img s. some img }

abbrev idle : Loader (Option ℕ)
idle = record {
  has_client = true;
  images = none;
  fresh = [];
  failed_until = [];
  failed_reason = [];
  in_flight = [];
  movies = [];
}

abbrev decode : Text → Option ℕ
decode t = some 1

-- Two requests for one address, and the end of the job that serves both.
abbrev events : List (Event ℕ)
events =
    Event.thumbnail 0 (letter 7) 1
    ∷ Event.thumbnail 1 (letter 7) 2
    ∷ Event.finished 2 (letter 7) [] [] (some 9) 200
    ∷ []

run_answers_example :
    total_called cache unary decode (letter 7) 1 events idle
    ≡ total_asked cache unary decode (letter 7) 1 events
unfolding run after lookup fetch_thumbnail finish is_failed begin_fetch insert remove ◌==◌
run_answers_example = run_answers cache unary decode (letter 7) 1 events idle refl refl

run-IsBounded_example : IsBounded (run cache unary decode events idle)
run-IsBounded_example =
    run-IsBounded cache unary decode events idle
      (record { failures = omega arith; uploads = omega arith; films = omega arith })
