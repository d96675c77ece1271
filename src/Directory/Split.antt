-- ===== src/Directory/Split.antt =====
-- How src/ui/dialogs/room_directory_dialog.cpp cuts the objects out of the text of an array.
use progressive_desktop.Base.{
  ℕ, zero, suc, ◌+◌, ◌-◌, ◌≤◌, ◌≡◌, refl, ap, ◌∙◌, ◌≢◌, false, Option, none, some, List, [], ◌∷◌,
  ◌++◌, arith, Text, text, length, take, drop, All, index_of, index_of-append, eqb, Option-cases,
  inl, inr, take-append, length-append,
}
use mathlib.Core.List.{append_assoc}
use progressive_desktop.Directory.{find_unit, object_length, split_objects, chunk_text, find_at}

length-drop {ℓ} : {A : Type ℓ} (n : ℕ) (xs : List A) → length (drop n xs) ≡ length xs - n
length-drop zero xs = omega arith
length-drop (suc n) [] = omega arith
length-drop (suc n) (x ∷ xs) = omega (arith, length-drop n xs)

-- What is left behind an object that begins at `i`.
abbrev behind : ℕ → Text → Text
behind i xs = drop (suc (object_length 1 (drop 1 (drop i xs)))) (drop i xs)

behind-shorter : (i x n : ℕ) (xs : Text) → length xs ≤ n → length (behind i (x ∷ xs)) ≤ n
behind-shorter i x n xs h = omega (
  arith,
  length-drop (suc (object_length 1 (drop 1 (drop i (x ∷ xs))))) (drop i (x ∷ xs)),
  length-drop i (x ∷ xs),
  h,
)

split_objects_ends :
    (fuel : ℕ) (xs : Text)
    → length xs ≤ fuel
    → (objects : List Text) × (split_objects fuel xs ≡ some objects)
unfolding split_objects
split_objects_ends zero [] h = ([], refl)
split_objects_ends (suc fuel) [] h = ([], refl)
split_objects_ends zero (x ∷ xs) h = absurd (omega (arith, h))
split_objects_ends (suc fuel) (x ∷ xs) h = elim (Option-cases (index_of b'{' (x ∷ xs))) [
  | inl e ↦ ([], rw (e, split_objects) refl)
  | inr (i, e) ↦
      let (rest, ih) =
        split_objects_ends fuel (behind i (x ∷ xs))
          (behind-shorter i x fuel xs (omega (arith, h))) in
      (
        take (suc (object_length 1 (drop 1 (drop i (x ∷ xs))))) (drop i (x ∷ xs)) ∷ rest,
        rw (e, split_objects, ih) refl,
      )
]

split_objects_same :
    (f g : ℕ) (xs : Text) → length xs ≤ f → length xs ≤ g → split_objects f xs ≡ split_objects g xs
unfolding split_objects
split_objects_same zero zero [] h k = refl
split_objects_same zero (suc g) [] h k = refl
split_objects_same (suc f) zero [] h k = refl
split_objects_same (suc f) (suc g) [] h k = refl
split_objects_same zero g (x ∷ xs) h k = absurd (omega (arith, h))
split_objects_same (suc f) zero (x ∷ xs) h k = absurd (omega (arith, k))
split_objects_same (suc f) (suc g) (x ∷ xs) h k = elim (Option-cases (index_of b'{' (x ∷ xs))) [
  | inl e ↦ rw (e, split_objects) refl
  | inr (i, e) ↦
      let ih =
        split_objects_same f g (behind i (x ∷ xs)) (behind-shorter i x f xs (omega (arith, h)))
          (behind-shorter i x g xs (omega (arith, k))) in
      rw (e, split_objects, ih) refl
]

-- The loop over the array ends: as many rounds as the text has units are always enough to split it, and
-- any larger number of rounds gives the same objects.
pub split_objects_total :
    (fuel : ℕ) (xs : Text)
    → length xs ≤ fuel
    → (objects : List Text) × (split_objects (length xs) xs ≡ some objects)
      × (split_objects fuel xs ≡ some objects)
split_objects_total fuel xs h =
    let (objects, e) = split_objects_ends (length xs) xs (omega arith) in
    (objects, e, split_objects_same fuel (length xs) xs h (omega arith) ∙ e)

-- No brace in it.
abbrev pub IsFlat : Text → Type 0
IsFlat = All (λ c. (c ≢ b'{') × (c ≢ b'}'))

-- The text of an array of flat objects.
abbrev pub object : Text → Text
object inner = b'{' ∷ inner ++ b'}' ∷ []

abbrev pub more : List Text → Text
more [] = []
more (inner ∷ rest) = b',' ∷ object inner ++ more rest

abbrev pub array : List Text → Text
array [] = []
array (inner ∷ rest) = object inner ++ more rest

abbrev pub objects : List Text → List Text
objects [] = []
objects (inner ∷ rest) = object inner ∷ objects rest

eqb_ne : (c d : ℕ) → c ≢ d → eqb c d ≡ false
eqb_ne c d h = ground arith

object_length-flat :
    (inner rest : Text)
    → IsFlat inner
    → object_length 1 (inner ++ b'}' ∷ rest) ≡ length (inner ++ b'}' ∷ [])
unfolding object_length
object_length-flat [] [] h = refl
object_length-flat [] (c ∷ rest) h = refl
object_length-flat (c ∷ inner) rest ((p, q), ps) =
    rw (eqb_ne c b'{' p, eqb_ne c b'}' q) (ap suc (object_length-flat inner rest ps))

object_length-open : (inner : Text) → IsFlat inner → object_length 1 inner ≡ length inner
unfolding object_length
object_length-open [] h = refl
object_length-open (c ∷ inner) ((p, q), ps) =
    rw (eqb_ne c b'{' p, eqb_ne c b'}' q) (ap suc (object_length-open inner ps))

drop-append {ℓ} : {A : Type ℓ} (xs ys : List A) → drop (length xs) (xs ++ ys) ≡ ys
drop-append [] ys = refl
drop-append (x ∷ xs) ys = drop-append xs ys

take_all : (xs : Text) → take (length xs) xs ≡ xs
take_all [] = refl
take_all (x ∷ xs) = ap (x ∷◌) (take_all xs)

drop_all : (xs : Text) → drop (length xs) xs ≡ []
drop_all [] = refl
drop_all (x ∷ xs) = drop_all xs

add_object : Text → Option (List Text) → Option (List Text)
add_object o none = none
add_object o (some os) = some (o ∷ os)

split_objects-object :
    (fuel : ℕ) (inner rest : Text)
    → IsFlat inner
    → split_objects (suc fuel) (object inner ++ rest)
      ≡ add_object (object inner) (split_objects fuel rest)
unfolding split_objects index_of add_object
split_objects-object fuel inner rest h =
    let inside = inner ++ b'}' ∷ [] in
    let e : object_length 1 (inside ++ rest) ≡ length inside =
      rw (append_assoc inner (b'}' ∷ []) rest) (object_length-flat inner rest h) in
    ap
      (λ (n : ℕ).
        add_object (b'{' ∷ take n (inside ++ rest)) (split_objects fuel (drop n (inside ++ rest))))
      e
    ∙ rw (take-append inside rest, drop-append inside rest) refl

split_objects-more :
    (fuel : ℕ) (inner rest : Text)
    → IsFlat inner
    → split_objects (suc fuel) (b',' ∷ object inner ++ rest)
      ≡ add_object (object inner) (split_objects fuel rest)
unfolding split_objects index_of add_object
split_objects-more fuel inner rest h =
    let inside = inner ++ b'}' ∷ [] in
    let e : object_length 1 (inside ++ rest) ≡ length inside =
      rw (append_assoc inner (b'}' ∷ []) rest) (object_length-flat inner rest h) in
    ap
      (λ (n : ℕ).
        add_object (b'{' ∷ take n (inside ++ rest)) (split_objects fuel (drop n (inside ++ rest))))
      e
    ∙ rw (take-append inside rest, drop-append inside rest) refl

more-objects :
    (fuel : ℕ) (inners : List Text)
    → All IsFlat inners
    → length inners ≤ fuel
    → split_objects fuel (more inners) ≡ some (objects inners)
unfolding split_objects
more-objects zero [] h k = refl
more-objects (suc fuel) [] h k = refl
more-objects zero (i ∷ is) h k = absurd (omega (arith, k))
more-objects (suc fuel) (i ∷ is) (h, hs) k =
    split_objects-more fuel i (more is) h
    ∙ rw (more-objects fuel is hs (omega (arith, k))) (unfold add_object in refl)

length-more : (inners : List Text) → length inners ≤ length (more inners)
length-more [] = omega arith
length-more (i ∷ is) = omega (arith, length-more is, length-append (object i) (more is))

-- The text of an array of objects without braces in them is split into just these objects, in their order:
-- the fuel that is given, the length of the text, is enough.
pub split_objects-array :
    (inners : List Text)
    → All IsFlat inners
    → split_objects (length (array inners)) (array inners) ≡ some (objects inners)
unfolding split_objects
split_objects-array [] h = refl
split_objects-array (i ∷ is) (h, hs) =
    let left = length (i ++ b'}' ∷ [] ++ more is) in
    split_objects-object left i (more is) h
    ∙ rw
        (more-objects left is hs
          (omega (arith, length-more is, length-append (i ++ b'}' ∷ []) (more is))))
        (unfold add_object in refl)

-- The array ends at the first closing bracket, also inside of a name or a topic: then the objects are the first
-- one, cut off there, and none of those behind it, whatever they are.
pub chunk_text-cut :
    (a rest : Text)
    → All (λ c. c ≢ b']') a
    → IsFlat a
    → let body = text "{\"chunk\":[{" ++ a ++ b']' ∷ rest in
      (chunk_text body 1 ≡ some (b'{' ∷ a))
      × (split_objects (length (b'{' ∷ a)) (b'{' ∷ a) ≡ some ((b'{' ∷ a) ∷ []))
unfolding chunk_text find_at find_unit index_of split_objects text add_object
chunk_text-cut a rest b h =
    let e : 1 + 8 + suc (suc (length a)) - 10 ≡ suc (length a) = omega arith in
    (
      rw (index_of-append b']' a rest b) (
          ap (λ (n : ℕ). some (take n (b'{' ∷ a ++ b']' ∷ rest))) e
          ∙ ap (λ (t : Text). some (b'{' ∷ t)) (take-append a (b']' ∷ rest))),
      ap (λ (n : ℕ). add_object (b'{' ∷ take n a) (split_objects (length a) (drop n a)))
            (object_length-open a h)
          ∙ rw (take_all a, drop_all a) refl,
    )
