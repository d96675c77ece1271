-- ===== src/Base/Texts.antt =====
-- Text as a list of code units: bytes for `std::string`, UTF-16 units for `QString`.
use Prim.Native.Nat.{ℕ, zero, suc}
use Prim.Native.Char.{code}
use Prim.Native.String.{String}
use mathlib.Core.Path.{◌≡◌, refl, ap}
use mathlib.Core.Logic.{◌↔◌, ◌≢◌, ◌⊎◌, inl, inr}
use mathlib.Core.Bool.{Bool, true, false, ◌&&◌}
use mathlib.Core.Option.{Option, none, some}
use mathlib.Core.List.{List, [], ◌∷◌, ◌++◌}
use native.Mathlib.Omega.{arith}
use progressive_desktop.Base.Bools.{eqb, eqb_iff, if◌then◌else◌, Option-cases}
use progressive_desktop.Base.Lists.{take, drop, All, length}

abbrev pub Text : Type 0
Text = List ℕ

-- The code points of a literal.
abbrev codes : String → Text
codes String.[] = []
codes (String.◌∷◌ c s) = code c ∷ codes s

-- A literal; shut, so that proofs do not carry its digits.
unfoldable pub text : String → Text
text s = codes s

infix 50 ◌==◌
unfoldable pub ◌==◌ : Text → Text → Bool
[] == [] = true
[] == (y ∷ ys) = false
(x ∷ xs) == [] = false
(x ∷ xs) == (y ∷ ys) = eqb x y && xs == ys

pub ==-sound : (xs ys : Text) → (xs == ys) ≡ true → xs ≡ ys
unfolding ◌==◌
==-sound [] [] h = refl
==-sound [] (y ∷ ys) h = cc
==-sound (x ∷ xs) [] h = cc
==-sound (x ∷ xs) (y ∷ ys) h = ground (arith, ==-sound xs ys)

pub ==-refl : (xs : Text) → (xs == xs) ≡ true
unfolding ◌==◌
==-refl [] = refl
==-refl (x ∷ xs) = ground (arith, ==-refl xs)

pub ==_iff : (xs ys : Text) → ((xs == ys) ≡ true) ↔ (xs ≡ ys)
==_iff xs ys = (==-sound xs ys, λ e. rw e (==-refl ys))

-- `find(c)`: the position of the first code unit `c`.
unfoldable pub index_of : ℕ → Text → Option ℕ
index_of c [] = none
index_of c (x ∷ xs) =
    let rest : Option ℕ = elim (index_of c xs) [ none ↦ none | some i ↦ some (suc i) ] in
    if eqb x c then some 0 else rest

-- Around the first `c`: what precedes it has none, and the text is put together again.
pub index_of-split :
    (c : ℕ) (xs : Text) (i : ℕ) → index_of c xs ≡ some i → take i xs ++ c ∷ drop (suc i) xs ≡ xs
unfolding index_of
index_of-split c [] i h = cc
index_of-split c (x ∷ xs) zero h = ground (arith, eqb_iff x c)
index_of-split c (x ∷ xs) (suc i) h = ground (arith, index_of-split c xs i)

pub index_of-first :
    (c : ℕ) (xs : Text) (i : ℕ) → index_of c xs ≡ some i → All (λ x. x ≢ c) (take i xs)
unfolding index_of
index_of-first c [] i h = cc
index_of-first c (x ∷ xs) zero h = tt
index_of-first c (x ∷ xs) (suc i) h = ground (arith, index_of-first c xs i)

pub index_of-none : (c : ℕ) (xs : Text) → index_of c xs ≡ none → All (λ x. x ≢ c) xs
unfolding index_of
index_of-none c [] h = tt
index_of-none c (x ∷ xs) h = ground (arith, index_of-none c xs)

-- The text before the first blank and the text behind it; with no blank the second part is empty.
unfoldable pub split_blank : Text → Text × Text
split_blank xs = elim (index_of b' ' xs) [ none ↦ (xs, []) | some i ↦ (take i xs, drop (suc i) xs) ]

-- The first part has no blank, and the two with a blank between them are the text, unless it has no
-- blank at all.
pub split_blank_lem :
    (xs : Text)
    → All (λ x. x ≢ b' ') (split_blank xs).0
      × ((split_blank xs ≡ (xs, [])) ⊎ ((split_blank xs).0 ++ b' ' ∷ (split_blank xs).1 ≡ xs))
unfolding split_blank
split_blank_lem xs = elim (Option-cases (index_of b' ' xs)) [
  | inl e ↦ rw (e, split_blank) (index_of-none b' ' xs e, inl refl)
  | inr (i, e) ↦ rw (e, split_blank) (index_of-first b' ' xs i e, inr (index_of-split b' ' xs i e))
]

-- `s[0] == c`, false on the empty text.
abbrev pub starts_with : ℕ → Text → Bool
starts_with c [] = false
starts_with c (x ∷ xs) = eqb x c

-- Everything before a unit that stands in the text for the first time.
pub index_of-append :
    (c : ℕ) (xs ys : Text) → All (λ x. x ≢ c) xs → index_of c (xs ++ c ∷ ys) ≡ some (length xs)
unfolding index_of
index_of-append c [] ys h = ground arith
index_of-append c (x ∷ xs) ys (p, ps) = rw (index_of-append c xs ys ps) (ground arith)

pub take-append {ℓ} : {A : Type ℓ} (xs ys : List A) → take (length xs) (xs ++ ys) ≡ xs
take-append [] ys = refl
take-append (x ∷ xs) ys = ap (x ∷◌) (take-append xs ys)
