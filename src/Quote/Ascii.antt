-- ===== src/Quote/Ascii.antt =====
-- About quoting and the ASCII range.
use sdrportal.Prelude.{
  codes, ℕ, ◌≡◌, refl, Text, some, [], ◌∷◌, ◌++◌, true, arith, ◌&&◌, Bool-cases, inl, inr,
}
use sdrportal.Exc.{ok}
use sdrportal.Str.{replace, has_char}
use sdrportal.Quote.{escape_markup, quote_xml, quote_attrib, is_ascii, encode_ascii}

pub is_ascii-append : (s t : Text) → is_ascii (s ++ t) ≡ (is_ascii s && is_ascii t)
unfolding is_ascii
is_ascii-append [] t = refl
is_ascii-append (c ∷ s) t = ground (arith, is_ascii-append s t)

pub is_ascii-replace :
    (c : ℕ) (new s : Text)
    → is_ascii new ≡ true
    → is_ascii s ≡ true
    → is_ascii (replace c new s) ≡ true
unfolding is_ascii replace
is_ascii-replace c new [] h k = refl
is_ascii-replace c new (x ∷ s) h k =
    ground (arith, is_ascii-replace c new s, is_ascii-append new (replace c new s))

ascii_gt : is_ascii (codes "&gt;") ≡ true
unfolding is_ascii
ascii_gt = refl

ascii_lt : is_ascii (codes "&lt;") ≡ true
unfolding is_ascii
ascii_lt = refl

ascii_amp : is_ascii (codes "&amp;") ≡ true
unfolding is_ascii
ascii_amp = refl

ascii_quot : is_ascii (codes "&quot;") ≡ true
unfolding is_ascii
ascii_quot = refl

ascii_double : is_ascii (34 ∷ []) ≡ true
unfolding is_ascii
ascii_double = refl

ascii_single : is_ascii (39 ∷ []) ≡ true
unfolding is_ascii
ascii_single = refl

escape_markup-is_ascii : (s : Text) → is_ascii s ≡ true → is_ascii (escape_markup s) ≡ true
unfolding escape_markup
escape_markup-is_ascii s h = is_ascii-replace 62 (codes "&gt;") _ ascii_gt (
    is_ascii-replace 60 (codes "&lt;") _ ascii_lt
      (is_ascii-replace 38 (codes "&amp;") s ascii_amp h))

enclose-is_ascii :
    (q : ℕ) (s : Text)
    → is_ascii (q ∷ []) ≡ true
    → is_ascii s ≡ true
    → is_ascii ((q ∷ []) ++ (s ++ (q ∷ []))) ≡ true
unfolding is_ascii
enclose-is_ascii q s h k = ground (arith, is_ascii-append s (q ∷ []))

quote_attrib-is_ascii : (s : Text) → is_ascii s ≡ true → is_ascii (quote_attrib (some s)) ≡ true
unfolding quote_attrib
quote_attrib-is_ascii s h =
    let t = escape_markup s in
    let k = escape_markup-is_ascii s h in
    elim (Bool-cases (has_char 34 t)) [
      | inl two ↦ elim (Bool-cases (has_char 39 t)) [
        | inl one ↦
            rw (two, one)
              (enclose-is_ascii 34 _ ascii_double
                (is_ascii-replace 34 (codes "&quot;") t ascii_quot k))
        | inr free ↦ rw (two, free) (enclose-is_ascii 39 t ascii_single k)
      ]
      | inr free ↦ rw free (enclose-is_ascii 34 t ascii_double k)
    ]

-- Encoding a quoted attribute, or a quoted text, of ASCII characters gives it unchanged.
pub encode_ascii-quote_attrib :
    (s : Text)
    → is_ascii s ≡ true
    → encode_ascii (quote_attrib (some s)) ≡ ok (quote_attrib (some s))
unfolding encode_ascii
encode_ascii-quote_attrib s h = rw (quote_attrib-is_ascii s h)

pub encode_ascii-quote_xml :
    (s : Text) → is_ascii s ≡ true → encode_ascii (quote_xml (some s)) ≡ ok (quote_xml (some s))
unfolding encode_ascii quote_xml
encode_ascii-quote_xml s h = rw (escape_markup-is_ascii s h)
