-- ===== src/Str.antt =====
-- The text operations of Python that the documentation tools use: `split`, `join`, `replace` of one
-- character, `strip`, `endswith` and `in`.
pub mod SplitJoin
pub mod Strip
use sdrportal.Prelude.{
  ℕ, zero, suc, ◌-◌, Text, List, [], ◌∷◌, ◌++◌, Bool, true, false, ◌&&◌, ◌||◌, ◌==◌, length, leb,
  if◌then◌else◌, text_eq,
}

-- `s.startswith(p)`, with the prefix first.
unfoldable pub is_prefix : Text → Text → Bool
is_prefix [] s = true
is_prefix (p ∷ ps) [] = false
is_prefix (p ∷ ps) (c ∷ s) = (p == c) && is_prefix ps s

-- Puts a character in front of the first piece.
abbrev pub cons_head : ℕ → List Text → List Text
cons_head c [] = (c ∷ []) ∷ []
cons_head c (t ∷ ts) = (c ∷ t) ∷ ts

-- The scan of `s.split(sep)`; the number counts the characters of a separator still to pass over.
unfoldable pub split_from : Text → ℕ → Text → List Text
split_from sep k [] = [] ∷ []
split_from sep (suc k) (c ∷ s) = split_from sep k s
split_from sep zero (c ∷ s) =
    let cut = split_from sep (length sep - 1) s in
    let kept = split_from sep 0 s in if is_prefix sep (c ∷ s) then [] ∷ cut else cons_head c kept

-- `s.split(sep)` for a separator that is not empty.
unfoldable pub split : Text → Text → List Text
unfolding split_from is_prefix
split sep s = split_from sep 0 s

-- `sep.join(pieces)`
unfoldable pub join : Text → List Text → Text
join sep [] = []
join sep (t ∷ []) = t
join sep (t ∷ u ∷ us) = t ++ (sep ++ join sep (u ∷ us))

-- `s.replace(c, new)` for a pattern `c` of one character.
unfoldable pub replace : ℕ → Text → Text → Text
replace c new [] = []
replace c new (x ∷ s) = if x == c then new ++ replace c new s else x ∷ replace c new s

-- `c in s` for one character, and `s.find(c) != -1`
unfoldable pub has_char : ℕ → Text → Bool
has_char c [] = false
has_char c (x ∷ s) = (x == c) || has_char c s

-- `p in s`
unfoldable pub has_infix : Text → Text → Bool
unfolding is_prefix
has_infix p [] = is_prefix p []
has_infix p (c ∷ s) = is_prefix p (c ∷ s) || has_infix p s

abbrev between : ℕ → ℕ → ℕ → Bool
between lo hi c = leb lo c && leb c hi

-- The white space of Python 2's unicode: `u.isspace()` of one character.
abbrev pub is_space : ℕ → Bool
is_space c =
    between 9 13 c
    || between 28 32 c
    || (c == 133)
    || (c == 160)
    || (c == 5760)
    || (c == 6158)
    || between 8192 8202 c
    || (c == 8232)
    || (c == 8233)
    || (c == 8239)
    || (c == 8287)
    || (c == 12288)

unfoldable pub lstrip : Text → Text
lstrip [] = []
lstrip (c ∷ s) = if is_space c then lstrip s else c ∷ s

abbrev pub cons_unless_blank : ℕ → Text → Text
cons_unless_blank c [] = if is_space c then [] else c ∷ []
cons_unless_blank c (d ∷ t) = c ∷ d ∷ t

unfoldable pub rstrip : Text → Text
rstrip [] = []
rstrip (c ∷ s) = cons_unless_blank c (rstrip s)

-- `s.strip()`
unfoldable pub strip : Text → Text
unfolding lstrip rstrip
strip s = rstrip (lstrip s)

-- `s.endswith(p)`
unfoldable pub ends_with : Text → Text → Bool
unfolding text_eq
ends_with p [] = text_eq p []
ends_with p (c ∷ s) = text_eq p (c ∷ s) || ends_with p s
