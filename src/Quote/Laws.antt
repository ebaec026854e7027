-- ===== src/Quote/Laws.antt =====
-- About the quoting functions of indexsuper.py, and how a reader of XML takes quoting back.
use sdrportal.Prelude.{
  ℕ, ◌≡◌, refl, ap, ◌∙◌, Text, codes, Option, [], ◌∷◌, ◌++◌, false, ◌||◌, arith, Bool-cases, inl,
  inr, ◌⊎◌,
}
use sdrportal.Str.{is_prefix, replace, has_char}
use sdrportal.Quote.{shown, escape_markup, quote_xml, enclose, quote_attrib}
use sdrportal.Quote.Escape.{
  normalise, read_attribute, normalise-escape_markup, normalise-escape_quotes, resolve,
  resolve_from, escape_char, escape_markup-cons, resolve_from-escape_char, replace-append,
}

has_char-append : (c : ℕ) (s t : Text) → has_char c (s ++ t) ≡ (has_char c s || has_char c t)
unfolding has_char
has_char-append c [] t = refl
has_char-append c (x ∷ s) t = ground (arith, has_char-append c s t)

escape_char-no_markup :
    (c : ℕ) → (has_char 60 (escape_char c) ≡ false) × (has_char 62 (escape_char c) ≡ false)
unfolding has_char escape_char
escape_char-no_markup c = ground arith

escape_markup-no_markup :
    (s : Text) → (has_char 60 (escape_markup s) ≡ false) × (has_char 62 (escape_markup s) ≡ false)
escape_markup-no_markup [] = unfold escape_markup has_char in (refl, refl)
escape_markup-no_markup (c ∷ s) = rw escape_markup-cons (
    ground (
      arith,
      has_char-append 60 (escape_char c) (escape_markup s),
      has_char-append 62 (escape_char c) (escape_markup s),
      escape_char-no_markup c,
      escape_markup-no_markup s,
    ))

resolve_from-escape_markup : (s : Text) → resolve_from 0 (escape_markup s) ≡ s
resolve_from-escape_markup [] = unfold escape_markup resolve_from in refl
resolve_from-escape_markup (c ∷ s) = rw escape_markup-cons (
    resolve_from-escape_char c (escape_markup s)
    ∙ ap (λ (t : Text). c ∷ t) (resolve_from-escape_markup s))

-- An XML reader resolves the references of a quoted text back to the text, `None` being shown as a
-- word, and the quoted text holds no `<` and no `>`.
pub resolve-quote_xml :
    (s : Option Text)
    → (resolve (quote_xml s) ≡ shown s)
      × (has_char 60 (quote_xml s) ≡ false)
      × (has_char 62 (quote_xml s) ≡ false)
unfolding resolve quote_xml
resolve-quote_xml s =
    let no = escape_markup-no_markup (shown s) in (resolve_from-escape_markup (shown s), no.0, no.1)

-- The text of an attribute whose value holds both kinds of quote.
abbrev escape_quotes : Text → Text
escape_quotes s = replace 34 (codes "&quot;") (escape_markup s)

escape_quotes-no_quote : (s : Text) → has_char 34 (replace 34 (codes "&quot;") s) ≡ false
unfolding has_char replace
escape_quotes-no_quote [] = refl
escape_quotes-no_quote (c ∷ s) = ground (arith, escape_quotes-no_quote s)

escape_quotes-no_lt :
    (s : Text) → has_char 60 s ≡ false → has_char 60 (replace 34 (codes "&quot;") s) ≡ false
unfolding has_char replace
escape_quotes-no_lt [] h = refl
escape_quotes-no_lt (c ∷ s) h = ground (arith, escape_quotes-no_lt s)

resolve_from-escape_quotes_char :
    (c : ℕ) (s : Text)
    → resolve_from 0 (replace 34 (codes "&quot;") (escape_char c) ++ s) ≡ c ∷ resolve_from 0 s
unfolding resolve_from escape_char replace is_prefix
resolve_from-escape_quotes_char c s = ground arith

resolve_from-escape_quotes : (s : Text) → resolve_from 0 (escape_quotes s) ≡ s
resolve_from-escape_quotes [] = unfold escape_markup resolve_from replace in refl
resolve_from-escape_quotes (c ∷ s) = rw escape_markup-cons (
    rw replace-append (
      resolve_from-escape_quotes_char c (escape_quotes s)
      ∙ ap (λ (t : Text). c ∷ t) (resolve_from-escape_quotes s)))

read_attribute-escape_markup : (s : Text) → read_attribute (escape_markup s) ≡ normalise false s
unfolding read_attribute resolve
read_attribute-escape_markup s =
    rw (normalise-escape_markup false s) (resolve_from-escape_markup (normalise false s))

read_attribute-escape_quotes : (s : Text) → read_attribute (escape_quotes s) ≡ normalise false s
unfolding read_attribute resolve
read_attribute-escape_quotes s =
    rw (normalise-escape_quotes false (escape_markup s), normalise-escape_markup false s)
      (resolve_from-escape_quotes (normalise false s))

-- A quoted attribute is a text between two equal quotes which the text itself does not hold; it
-- holds no `<` either, and an XML reader gives for it the value with its white space normalised: a
-- tab or a line break of the value comes back as a blank, and all else as it was.
pub quote_attrib_lem :
    (s : Option Text)
    → (q : ℕ) × (body : Text) × ((q ≡ 34) ⊎ (q ≡ 39))
      × (quote_attrib s ≡ enclose (q ∷ []) body)
      × (has_char q body ≡ false)
      × (has_char 60 body ≡ false)
      × (read_attribute body ≡ normalise false (shown s))
unfolding quote_attrib
quote_attrib_lem s =
    let text = escape_markup (shown s) in
    let no = escape_markup-no_markup (shown s) in
    elim (Bool-cases (has_char 34 text)) [
      | inl two ↦ elim (Bool-cases (has_char 39 text)) [
        | inl one ↦ (
          34,
          escape_quotes (shown s),
          inl refl,
          rw (two, one),
          escape_quotes-no_quote text,
          escape_quotes-no_lt text no.0,
          read_attribute-escape_quotes (shown s),
        )
        | inr none_one ↦ (
          39,
          text,
          inr refl,
          rw (two, none_one),
          none_one,
          no.0,
          read_attribute-escape_markup (shown s),
        )
      ]
      | inr none_two ↦
          (34, text, inl refl, rw none_two, none_two, no.0, read_attribute-escape_markup (shown s))
    ]
