-- ===== src/Quote/Reader.antt =====
-- About `quote_python` of indexsuper.py, and how Python reads a string literal.
use sdrportal.Prelude.{
  ℕ, Text, Option, none, some, [], ◌∷◌, Bool, true, false, ◌==◌, ◌||◌, ◌&&◌, if◌then◌else◌, drop,
}
use sdrportal.Str.{is_prefix, replace}

abbrev prepend : ℕ → Option Text → Option Text
prepend c none = none
prepend c (some s) = some (c ∷ s)

abbrev end_of_literal : Text → Option Text
end_of_literal [] = some []
end_of_literal (c ∷ s) = none

abbrev two_left : Text → Option Text
two_left (a ∷ b ∷ []) = some []
two_left _ = none

-- A character behind a backslash, of which quotes and the backslash are read here.
abbrev escaped_char : ℕ → Option Text → Option Text
escaped_char c rest = if (c == 34) || (c == 39) || (c == 92) then prepend c rest else none

-- The rest of a literal that one quote opened; the test says whether a backslash stands before.
unfoldable pub read_short : ℕ → Bool → Text → Option Text
read_short q p [] = none
read_short q p (c ∷ s) =
    let rest = read_short q false s in
    let escaped = read_short q true s in
    if p
    then escaped_char c rest
    else if c == q
    then end_of_literal s
    else if (c == 10) || (c == 13)
    then none
    else if c == 92
    then escaped
    else prepend c rest

abbrev starts_line : Text → Bool
starts_line [] = false
starts_line (c ∷ s) = c == 10

-- The rest of a literal that three quotes opened. A carriage return, or one with a line feed, is read
-- as a line feed.
unfoldable pub read_long : ℕ → Bool → Text → Option Text
unfolding is_prefix
read_long q p [] = none
read_long q p (c ∷ s) =
    let rest = read_long q false s in
    let escaped = read_long q true s in
    if p
    then escaped_char c rest
    else if (c == q) && is_prefix (q ∷ q ∷ []) s
    then two_left s
    else if c == 92
    then escaped
    else if c == 13
    then (if starts_line s then rest else prepend 10 rest)
    else prepend c rest

abbrev after_quote : Text → Option Text
after_quote [] = none
after_quote (c ∷ s) = if (c == 39) || (c == 34) then read_short c false s else none

-- A whole string literal.
unfoldable pub read_literal : Text → Option Text
unfolding read_short read_long is_prefix
read_literal s =
    if is_prefix (39 ∷ 39 ∷ 39 ∷ []) s
    then read_long 39 false (drop 3 s)
    else if is_prefix (34 ∷ 34 ∷ 34 ∷ []) s
    then read_long 34 false (drop 3 s)
    else after_quote s

-- The text that `quote_python` puts between double quotes.
abbrev escaped_quotes : Text → Text
escaped_quotes s = replace 34 (92 ∷ 34 ∷ []) s
