-- ===== src/Base/Maps.antt =====
-- Maps from texts: `QHash`, `std::map` and `std::unordered_map` as association lists.
use Prim.Native.Nat.{suc, ◌≤◌}
use mathlib.Core.Path.{◌≡◌, refl}
use mathlib.Core.Bool.{Bool, true, false}
use mathlib.Core.Option.{Option, none, some}
use mathlib.Core.List.{List, [], ◌∷◌}
use native.Mathlib.Omega.{arith}
use progressive_desktop.Base.Bools.{if◌then◌else◌, is_some}
use progressive_desktop.Base.Lists.{length}
use progressive_desktop.Base.Texts.{Text, ◌==◌, ==_iff}

abbrev pub Map {ℓ} : Type ℓ → Type ℓ
Map V = List (Text × V)

module _ {ℓ} {V : Type ℓ} where
  unfoldable pub lookup : Text → Map V → Option V
  lookup k [] = none
  lookup k ((j, v) ∷ m) = if j == k then some v else lookup k m

  unfoldable pub insert : Text → V → Map V → Map V
  insert k v [] = (k, v) ∷ []
  insert k v ((j, w) ∷ m) = if j == k then (k, v) ∷ m else (j, w) ∷ insert k v m

  unfoldable pub remove : Text → Map V → Map V
  remove k [] = []
  remove k ((j, v) ∷ m) = if j == k then remove k m else (j, v) ∷ remove k m

  abbrev pub contains : Text → Map V → Bool
  contains k m = is_some (lookup k m)

  pub lookup-insert :
      (key at : Text) (new : V) (entries : Map V)
      → lookup at (insert key new entries) ≡ (if key == at then some new else lookup at entries)
  unfolding lookup insert
  lookup-insert key at new [] = refl
  lookup-insert key at new ((old, w) ∷ entries) =
      ground (arith, lookup-insert key at new entries, ==_iff key at, ==_iff old key, ==_iff old at)

  pub lookup-remove :
      (k j : Text) (m : Map V) → lookup j (remove k m) ≡ (if k == j then none else lookup j m)
  unfolding lookup remove
  lookup-remove k j [] = ground arith
  lookup-remove k j ((i, w) ∷ m) =
      ground (arith, ==_iff k j, ==_iff i k, ==_iff i j, lookup-remove k j m)

  pub length-insert : (k : Text) (v : V) (m : Map V) → length (insert k v m) ≤ suc (length m)
  unfolding insert
  length-insert k v [] = omega arith
  length-insert k v ((j, w) ∷ m) = ground (arith, length-insert k v m)

  pub length-insert_present :
      (k : Text) (v : V) (m : Map V) → contains k m ≡ true → length (insert k v m) ≡ length m
  unfolding insert lookup
  length-insert_present k v [] h = cc
  length-insert_present k v ((j, w) ∷ m) h = ground (arith, length-insert_present k v m)

  pub length-insert_absent :
      (k : Text) (v : V) (m : Map V) → contains k m ≡ false → length (insert k v m) ≡ suc (length m)
  unfolding insert lookup
  length-insert_absent k v [] h = omega arith
  length-insert_absent k v ((j, w) ∷ m) h = ground (arith, length-insert_absent k v m)

  pub length-remove : (k : Text) (m : Map V) → length (remove k m) ≤ length m
  unfolding remove
  length-remove k [] = omega arith
  length-remove k ((j, v) ∷ m) = ground (arith, length-remove k m)
