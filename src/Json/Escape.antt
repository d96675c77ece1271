-- ===== src/Json/Escape.antt =====
-- What a reader of JSON makes of a body that was put between quotes, escaped or not.
use progressive_desktop.Base.{
  ℕ, ◌≡◌, refl, ◌≢◌, ◌≤◌, ◌<◌, ◌⊎◌, none, some, [], ◌∷◌, ◌++◌, arith, Text, All,
}
use mathlib.Core.List.{append_assoc}
use progressive_desktop.Json.{quote, backslash, escape_unit, escape, read_string}

-- A code unit that is no control character, or is the newline.
abbrev pub IsPrintable : ℕ → Type 0
IsPrintable c = (32 ≤ c) ⊎ (c ≡ 10)

read_escape_unit :
    (c d : ℕ) (cs s rest : Text)
    → IsPrintable c
    → read_string (d ∷ cs) ≡ some (s, rest)
    → read_string (escape_unit c ++ d ∷ cs) ≡ some (c ∷ s, rest)
unfolding read_string escape_unit
read_escape_unit c d cs s rest p h = ground arith

-- The text that ends in a quote is never empty.
behind : (xs rest : Text) → (d : ℕ) × (cs : Text) × (xs ++ quote ∷ rest ≡ d ∷ cs)
behind [] rest = (quote, rest, refl)
behind (c ∷ xs) rest = (c, xs ++ quote ∷ rest, refl)

-- A body of printable units and newlines, escaped and put before a closing quote, is read back as
-- that body, and the reader stops at that quote.
pub read_string-escape :
    (body rest : Text)
    → All IsPrintable body
    → read_string (escape body ++ quote ∷ rest) ≡ some (body, rest)
unfolding escape
read_string-escape [] [] h = unfold read_string in refl
read_string-escape [] (r ∷ rest) h = unfold read_string in refl
read_string-escape (c ∷ body) rest (p, ps) =
    let (d, cs, e) = behind (escape body) rest in
    rw (append_assoc, e)
      (read_escape_unit c d cs body rest p (rw e at (read_string-escape body rest ps)))

-- A control character other than the newline is left as it is, so the reader refuses a body that
-- begins with one.
pub read_string-escape_control :
    (c : ℕ) (body rest : Text)
    → c < 32
    → c ≢ 10
    → read_string (escape (c ∷ body) ++ quote ∷ rest) ≡ none
unfolding escape escape_unit read_string
read_string-escape_control c body rest h ne =
    let (d, cs, e) = behind (escape body) rest in rw (append_assoc, e) (ground arith)

read_plain_unit :
    (c d : ℕ) (cs s rest : Text)
    → (32 ≤ c) × (c ≢ quote) × (c ≢ backslash)
    → read_string (d ∷ cs) ≡ some (s, rest)
    → read_string (c ∷ d ∷ cs) ≡ some (c ∷ s, rest)
unfolding read_string
read_plain_unit c d cs s rest p h = ground arith

-- A body that is put between quotes as it is ends at its first quote, when no backslash or control
-- character stands before: what follows the quote is read as JSON, not as text.
pub read_string-unescaped :
    (before after rest : Text)
    → All (λ c. (32 ≤ c) × (c ≢ quote) × (c ≢ backslash)) before
    → read_string (before ++ quote ∷ (after ++ quote ∷ rest)) ≡ some (before, after ++ quote ∷ rest)
read_string-unescaped [] after rest h =
    let (d, cs, e) = behind after rest in rw e (unfold read_string in refl)
read_string-unescaped (c ∷ before) after rest (p, ps) =
    let (d, cs, e) = behind before (after ++ quote ∷ rest) in
    let ih = read_string-unescaped before after rest ps in
    rw e (read_plain_unit c d cs before (after ++ quote ∷ rest) p (rw e at ih))
