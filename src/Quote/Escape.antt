-- ===== src/Quote/Escape.antt =====
-- Escaping character by character, and how an XML reader takes it back.
use sdrportal.Prelude.{
  ℕ, zero, suc, ◌≡◌, refl, Text, codes, [], ◌∷◌, ◌++◌, ◌==◌, arith, append_assoc, if◌then◌else◌,
  Bool-cases, inl, inr, Bool, true, false,
}
use sdrportal.Str.{is_prefix, replace}
use sdrportal.Quote.{escape_markup}

-- The references that XML defines for `&`, `<`, `>` and `"`: the character that stands for the text
-- behind an ampersand, and how many more characters are read.
abbrev pub reference : Text → ℕ × ℕ
unfolding is_prefix
reference s =
    if is_prefix (codes "amp;") s
    then (38, 4)
    else if is_prefix (codes "lt;") s
    then (60, 3)
    else if is_prefix (codes "gt;") s
    then (62, 3)
    else if is_prefix (codes "quot;") s
    then (34, 5)
    else (38, 0)

unfoldable pub resolve_from : ℕ → Text → Text
resolve_from k [] = []
resolve_from (suc k) (c ∷ s) = resolve_from k s
resolve_from zero (c ∷ s) =
    let r = (if c == 38 then reference s else (c, 0)) in r.0 ∷ resolve_from r.1 s

-- What an XML reader gives for a text with references.
unfoldable pub resolve : Text → Text
unfolding resolve_from
resolve s = resolve_from 0 s

-- How an XML reader normalises the value of an attribute before it takes the references back: a tab, a
-- line feed and a carriage return become a blank, a return and a line feed together one blank. The test
-- says whether a return stands before.
unfoldable pub normalise : Bool → Text → Text
normalise p [] = []
normalise p (c ∷ s) =
    let plain = normalise false s in
    let returned = normalise true s in
    if c == 13
    then 32 ∷ returned
    else if c == 10
    then (if p then plain else 32 ∷ plain)
    else if c == 9
    then 32 ∷ plain
    else c ∷ plain

-- The value that an XML reader gives for what stands between the quotes of an attribute.
unfoldable pub read_attribute : Text → Text
unfolding resolve normalise
read_attribute s = resolve (normalise false s)

unfoldable pub escape_char : ℕ → Text
escape_char c =
    if c == 38
    then codes "&amp;"
    else if c == 60
    then codes "&lt;"
    else if c == 62
    then codes "&gt;"
    else c ∷ []

pub replace-append :
    (c : ℕ) (new s t : Text) → replace c new (s ++ t) ≡ replace c new s ++ replace c new t
unfolding replace
replace-append c new [] t = refl
replace-append c new (x ∷ s) t = elim (Bool-cases (x == c)) [
  | inl e ↦ rw e (rw (replace-append c new s t) (rw append_assoc))
  | inr e ↦ rw e (rw (replace-append c new s t))
]

pub escape_markup-cons :
    (c : ℕ) (s : Text) → escape_markup (c ∷ s) ≡ escape_char c ++ escape_markup s
unfolding escape_markup escape_char replace
escape_markup-cons c s = ground arith

pub resolve_from-escape_char :
    (c : ℕ) (s : Text) → resolve_from 0 (escape_char c ++ s) ≡ c ∷ resolve_from 0 s
unfolding resolve_from escape_char is_prefix
resolve_from-escape_char c s = ground arith

normalise-escape_char :
    (p : Bool) (c : ℕ) (s t : Text)
    → ((b : Bool) → normalise b s ≡ escape_markup (normalise b t))
    → normalise p (escape_char c ++ s) ≡ escape_markup (normalise p (c ∷ t))
unfolding normalise escape_char
normalise-escape_char p c s t h = ground (
  arith,
  escape_markup-cons c (normalise false t),
  escape_markup-cons 32 (normalise false t),
  escape_markup-cons 32 (normalise true t),
  h false,
  h true,
)

pub normalise-escape_markup :
    (p : Bool) (s : Text) → normalise p (escape_markup s) ≡ escape_markup (normalise p s)
normalise-escape_markup p [] = unfold escape_markup normalise replace in refl
normalise-escape_markup p (c ∷ s) =
    rw escape_markup-cons
      (normalise-escape_char p c (escape_markup s) s (λ b. normalise-escape_markup b s))

pub normalise-escape_quotes :
    (p : Bool) (s : Text)
    → normalise p (replace 34 (codes "&quot;") s) ≡ replace 34 (codes "&quot;") (normalise p s)
unfolding normalise replace
normalise-escape_quotes p [] = refl
normalise-escape_quotes p (c ∷ s) =
    ground (arith, normalise-escape_quotes false s, normalise-escape_quotes true s)
