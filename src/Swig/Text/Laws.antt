-- ===== src/Swig/Text/Laws.antt =====
-- About the docstrings of swig_doc.py between their quotes.
use sdrportal.Prelude.{
  ℕ, ◌≡◌, refl, ◌∙◌, Text, some, List, [], ◌∷◌, ◌++◌, Bool, true, false, ◌==◌, ◌&&◌, if◌then◌else◌,
  arith, ◌⊎◌, inl, inr, Bool-cases, sym, ==_iff,
}
use sdrportal.Quote.{is_ascii}
use sdrportal.Quote.Ascii.{is_ascii-append, is_ascii-replace}
use sdrportal.Str.{replace, lstrip, rstrip, strip, join}
use sdrportal.Swig.Text.{
  encode_replace, utoascii, combine_texts, entry_text, entry_unless_empty, params_suffix,
  blank_line, unless_empty, signature,
}

-- Each quote stands directly behind a backslash; the test says whether the character before the
-- text is one.
unfoldable pub escaped : Bool → Text → Bool
escaped p [] = true
escaped p (c ∷ s) = (if c == 34 then p else true) && escaped (c == 92) s

-- The text with each backslash before a quote taken away.
unfoldable pub unescape : Text → Text
unescape [] = []
unescape (c ∷ []) = c ∷ []
unescape (c ∷ d ∷ s) =
    let rest = unescape (d ∷ s) in if (c == 92) && (d == 34) then rest else c ∷ rest

escaped_mono : (p : Bool) (s : Text) → escaped false s ≡ true → escaped p s ≡ true
unfolding escaped
escaped_mono p [] h = refl
escaped_mono p (c ∷ s) h = ground arith

escaped-append :
    (p : Bool) (s t : Text)
    → escaped p s ≡ true
    → escaped false t ≡ true
    → escaped p (s ++ t) ≡ true
unfolding escaped
escaped-append p [] t h k = escaped_mono p t k
escaped-append p (c ∷ s) t h k = ground (arith, escaped-append (c == 92) s t)

escaped-utoascii : (p : Bool) (s : Text) → escaped p (replace 34 (92 ∷ 34 ∷ []) s) ≡ true
unfolding escaped replace
escaped-utoascii p [] = refl
escaped-utoascii p (c ∷ s) = ground (arith, escaped-utoascii false s, escaped-utoascii (c == 92) s)

escaped-lstrip : (p : Bool) (s : Text) → escaped p s ≡ true → escaped p (lstrip s) ≡ true
unfolding escaped lstrip
escaped-lstrip p [] h = refl
escaped-lstrip p (c ∷ s) h = ground (arith, escaped_mono p s, escaped-lstrip p s)

escaped-rstrip : (p : Bool) (s : Text) → escaped p s ≡ true → escaped p (rstrip s) ≡ true
unfolding escaped rstrip
escaped-rstrip p [] h = refl
escaped-rstrip p (c ∷ s) h = ground (arith, escaped-rstrip (c == 92) s)

escaped-strip : (s : Text) → escaped false s ≡ true → escaped false (strip s) ≡ true
unfolding strip
escaped-strip s h = escaped-rstrip false (lstrip s) (escaped-lstrip false s h)

ascii-lstrip : (s : Text) → is_ascii s ≡ true → is_ascii (lstrip s) ≡ true
unfolding is_ascii lstrip
ascii-lstrip [] h = refl
ascii-lstrip (c ∷ s) h = ground (arith, ascii-lstrip s)

ascii-rstrip : (s : Text) → is_ascii s ≡ true → is_ascii (rstrip s) ≡ true
unfolding is_ascii rstrip
ascii-rstrip [] h = refl
ascii-rstrip (c ∷ s) h = ground (arith, ascii-rstrip s)

ascii-encode_replace : (s : Text) → is_ascii (encode_replace s) ≡ true
unfolding is_ascii encode_replace
ascii-encode_replace [] = refl
ascii-encode_replace (c ∷ s) = ground (arith, ascii-encode_replace s)

ascii_escape : is_ascii (92 ∷ 34 ∷ []) ≡ true
unfolding is_ascii
ascii_escape = refl

ascii-utoascii : (s : Text) → is_ascii (utoascii (some s)) ≡ true
unfolding utoascii
ascii-utoascii s =
    is_ascii-replace 34 (92 ∷ 34 ∷ []) (encode_replace s) ascii_escape (ascii-encode_replace s)

abbrev NoQuoteFirst : Text → Type 0
NoQuoteFirst [] = Unit
NoQuoteFirst (c ∷ s) = (c == 34) ≡ false

unescape-cons : (c : ℕ) (s : Text) → NoQuoteFirst s → unescape (c ∷ s) ≡ c ∷ unescape s
unfolding unescape
unescape-cons c [] h = refl
unescape-cons c (d ∷ s) h = ground arith

escape-NoQuoteFirst : (s : Text) → NoQuoteFirst (replace 34 (92 ∷ 34 ∷ []) s)
unfolding replace
escape-NoQuoteFirst [] = tt
escape-NoQuoteFirst (c ∷ s) = elim (Bool-cases (c == 34)) [ inl e ↦ rw e refl | inr e ↦ rw e e ]

unescape_pair : (s : Text) → unescape (92 ∷ 34 ∷ s) ≡ unescape (34 ∷ s)
unfolding unescape
unescape_pair s = refl

step : (c d : ℕ) → c ≡ d → {s t : Text} → s ≡ t → ◌≡◌ {A = Text} (c ∷ s) (d ∷ t)
step c d e h = cc

unescape-escape : (s : Text) → unescape (replace 34 (92 ∷ 34 ∷ []) s) ≡ s
unfolding replace
unescape-escape [] = unfold unescape in refl
unescape-escape (c ∷ s) =
    let r = replace 34 (92 ∷ 34 ∷ []) s in
    let first = escape-NoQuoteFirst s in
    elim (Bool-cases (c == 34)) [
      | inl e ↦ rw e (
          unescape_pair r
          ∙ unescape-cons 34 r first
          ∙ step 34 c (sym ((==_iff c 34).0 e)) (unescape-escape s))
      | inr e ↦ rw e (unescape-cons c r first ∙ step c c refl (unescape-escape s))
    ]

-- `utoascii` gives an ASCII text in which a backslash stands directly before each quote; without
-- those backslashes it is the text with a question mark for each character outside ASCII.
pub utoascii_lem :
    (s : Text)
    → (is_ascii (utoascii (some s)) ≡ true)
      × (escaped false (utoascii (some s)) ≡ true)
      × (unescape (utoascii (some s)) ≡ encode_replace s)
unfolding utoascii
utoascii_lem s = (
  ascii-utoascii s,
  escaped-utoascii false (encode_replace s),
  unescape-escape (encode_replace s),
)

-- The text is ASCII and its quotes are escaped.
abbrev pub IsSafe : Text → Type 0
IsSafe s = (is_ascii s ≡ true) × (escaped false s ≡ true)

pub combine_texts-IsSafe : (brief detailed : Text) → IsSafe (combine_texts brief detailed)
unfolding combine_texts strip
combine_texts-IsSafe brief detailed =
    let (ascii, safe, back) =
      utoascii_lem
        (join blank_line (unless_empty (strip brief) (unless_empty (strip detailed) []))) in
    (ascii-rstrip _ (ascii-lstrip _ ascii), escaped-strip _ safe)

pub append-IsSafe : (s t : Text) → IsSafe s → IsSafe t → IsSafe (s ++ t)
append-IsSafe s t h k = (rw is_ascii-append (rw (h.0, k.0)), escaped-append false s t h.1 k.1)

pub params_suffix-IsSafe : (params : List Text) → IsSafe (params_suffix params)
unfolding params_suffix
params_suffix-IsSafe params =
    let (ascii, safe, back) = utoascii_lem (blank_line ++ signature params) in (ascii, safe)

pub entry_unless_empty_cases :
    (name docstring : Text)
    → (entry_unless_empty name docstring ≡ [])
      ⊎ (entry_unless_empty name docstring ≡ entry_text name docstring)
entry_unless_empty_cases name [] = inl refl
entry_unless_empty_cases name (c ∷ s) = inr refl
