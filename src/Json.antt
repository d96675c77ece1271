-- ===== src/Json.antt =====
-- The escaping of message bodies that src/ui/chat/chat_view.cpp, src/ui/handlers/thread_handler.cpp and
-- src/ui/timeline/timeline_handlers.cpp each write out, and a reader of JSON strings to judge it by.
pub mod Escape
use progressive_desktop.Base.{
  ℕ, Bool, true, Option, none, some, List, [], ◌∷◌, ◌++◌, Text, eqb, ltb, ◌||◌, if◌then◌else◌,
}

abbrev pub quote : ℕ
quote = 34

abbrev pub backslash : ℕ
backslash = 92

-- One code unit of the body.
pub escape_unit : ℕ → Text
escape_unit c =
    if eqb c quote
    then backslash ∷ quote ∷ []
    else if eqb c backslash
    then backslash ∷ backslash ∷ []
    else if eqb c b'\n'
    then backslash ∷ b'n' ∷ []
    else c ∷ []

-- The loop over the body.
unfoldable pub escape : Text → Text
unfolding escape_unit
escape [] = []
escape (c ∷ cs) = escape_unit c ++ escape cs

-- The code unit that a backslash and `c` stand for (RFC 8259, section 7, without `\u`).
pub unescape_unit : ℕ → Option ℕ
unescape_unit c =
    if eqb c quote || eqb c backslash || eqb c b'/'
    then some c
    else if eqb c b'n'
    then some 10
    else if eqb c b't'
    then some 9
    else if eqb c b'r'
    then some 13
    else if eqb c b'b'
    then some 8
    else if eqb c b'f'
    then some 12
    else none

put : Option ℕ → Option (Text × Text) → Option (Text × Text)
put none r = none
put (some c) none = none
put (some c) (some (s, rest)) = some (c ∷ s, rest)

-- Reads the rest of a string, up to its closing quote: the content, and what follows the quote.
-- A control character is not allowed.
unfoldable pub read_string : Text → Option (Text × Text)
unfolding put unescape_unit
read_string [] = none
read_string (c ∷ []) = if eqb c quote then some ([], []) else none
read_string (c ∷ d ∷ cs) =
    let escaped = put (unescape_unit d) (read_string cs) in
    let plain = put (some c) (read_string (d ∷ cs)) in
    if eqb c quote
    then some ([], d ∷ cs)
    else if eqb c backslash
    then escaped
    else if ltb c 32
    then none
    else plain
