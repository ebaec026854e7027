-- ===== src/Quote.antt =====
-- The quoting functions of the XML bindings, gr-sdrp/docs/doxygen/doxyxml/generated/indexsuper.py
-- (compoundsuper.py has the same text), and the ASCII encoding that the exports apply.
pub mod Escape
pub mod Laws
pub mod Reader
pub mod Ascii
mod Tests
use sdrportal.Prelude.{
  ℕ, Text, codes, Option, none, some, List, [], ◌∷◌, ◌++◌, Bool, true, false, ◌&&◌, ltb,
  if◌then◌else◌,
}
use sdrportal.Exc.{Result, ok, err, unicode_error}
use sdrportal.Str.{replace, has_char}

-- `isinstance(inStr, basestring) and inStr or '%s' % inStr`, for a text or `None`
abbrev pub shown : Option Text → Text
shown none = codes "None"
shown (some s) = s

-- The three replacements that both quoting functions begin with.
unfoldable pub escape_markup : Text → Text
unfolding replace
escape_markup s =
    replace 62 (codes "&gt;") (replace 60 (codes "&lt;") (replace 38 (codes "&amp;") s))

unfoldable pub quote_xml : Option Text → Text
unfolding escape_markup
quote_xml s = escape_markup (shown s)

-- A text between two copies of a delimiter.
abbrev pub enclose : Text → Text → Text
enclose d s = d ++ (s ++ d)

unfoldable pub quote_attrib : Option Text → Text
unfolding escape_markup has_char
quote_attrib s =
    let s1 = escape_markup (shown s) in
    if has_char 34 s1
    then (if has_char 39 s1
        then enclose (34 ∷ []) (replace 34 (codes "&quot;") s1)
        else enclose (39 ∷ []) s1)
    else enclose (34 ∷ []) s1

unfoldable pub quote_python : Text → Text
unfolding has_char replace
quote_python s =
    if has_char 39 s
    then (let s1 = (if has_char 34 s then replace 34 (92 ∷ 34 ∷ []) s else s) in
        if has_char 10 s1 then enclose (34 ∷ 34 ∷ 34 ∷ []) s1 else enclose (34 ∷ []) s1)
    else (if has_char 10 s then enclose (39 ∷ 39 ∷ 39 ∷ []) s else enclose (39 ∷ []) s)

unfoldable pub is_ascii : Text → Bool
is_ascii [] = true
is_ascii (c ∷ s) = ltb c 128 && is_ascii s

-- `s.encode(ExternalEncoding)` with `ExternalEncoding = 'ascii'`
unfoldable pub encode_ascii : Text → Result Text
unfolding is_ascii
encode_ascii s = if is_ascii s then ok s else err unicode_error
