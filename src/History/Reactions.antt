-- ===== src/History/Reactions.antt =====
-- How loadHistory of src/ui/room/room_data_loader.cpp reads a reaction out of the text of its JSON.
use mathlib.Core.List.{append_assoc}
use progressive_desktop.Base.{
  ◌≡◌, refl, sym, ap, ◌∙◌, ◌≢◌, true, none, some, [], ◌∷◌, ◌++◌, arith, Text, text, length,
  length-append, drop, All, index_of, index_of-append, take-append,
}
use progressive_desktop.History.{has_prefix, find, quoted, member}

drop-append : (xs ys : Text) → drop (length xs) (xs ++ ys) ≡ ys
drop-append [] ys = refl
drop-append (x ∷ xs) ys = drop-append xs ys

prefix_longer : (p q s : Text) → has_prefix (p ++ q) s ≡ true → has_prefix p s ≡ true
prefix_longer [] q s h = refl
prefix_longer (x ∷ p) q [] h = cc
prefix_longer (x ∷ p) q (y ∷ s) h = ground (arith, prefix_longer p q s)

find_longer : (p q s : Text) → find p s ≡ none → find (p ++ q) s ≡ none
unfolding find
find_longer [] q [] h = cc
find_longer (x ∷ p) q [] h = refl
find_longer p q (y ∷ s) h = ground (arith, find_longer p q s, prefix_longer p q (y ∷ s))

blank_key : (name : Text) → b'"' ∷ name ++ text "\": " ≡ (b'"' ∷ name ++ text "\":") ++ b' ' ∷ []
unfolding text
blank_key name = sym (append_assoc (b'"' ∷ name) (b'"' ∷ b':' ∷ []) (b' ' ∷ []))

-- The second search, with a blank behind the colon, never finds what the first did not: a member
-- whose name the first does not find is read as empty.
member_second_search :
    (name content : Text)
    → find (b'"' ∷ name ++ text "\":") content ≡ none
    → member name content ≡ []
unfolding member
member_second_search name content h =
    let again = find_longer (b'"' ∷ name ++ text "\":") (b' ' ∷ []) content h in
    let gone : find (b'"' ∷ name ++ text "\": ") content ≡ none =
      ap (λ p. find p content) (blank_key name) ∙ again in
    rw (member, h, gone) refl

quoted_lem : (v post : Text) → All (λ x. x ≢ b'"') v → quoted (b'"' ∷ (v ++ b'"' ∷ post)) ≡ v
unfolding quoted index_of
quoted_lem v post h = rw (quoted, index_of-append b'"' v post h) (take-append v (b'"' ∷ post))

-- A member whose key, with its colon, stands for the first time where the value follows at once is
-- read as the text between the quotes, if the value holds no quote.
pub member_reads :
    (name pre v post : Text)
    → let key = b'"' ∷ name ++ text "\":" in
      let content = pre ++ key ++ b'"' ∷ (v ++ b'"' ∷ post) in
      find key content ≡ some (length pre) → All (λ x. x ≢ b'"') v → member name content ≡ v
unfolding member
member_reads name pre v post e h =
    let key = b'"' ∷ name ++ text "\":" in
    rw (member, e)
      (rw⁻¹ (length-append pre key)
        (rw (drop-append (pre ++ key) (b'"' ∷ (v ++ b'"' ∷ post))) (quoted_lem v post h)))
