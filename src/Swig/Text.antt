-- ===== src/Swig/Text.antt =====
-- The texts of a docstring: `utoascii`, the joining of descriptions, and the templates of
-- `make_entry` and `make_func_entry` of swig_doc.py.
pub mod Laws
use sdrportal.Prelude.{ℕ, Text, codes, Option, none, some, List, [], ◌∷◌, ◌++◌, ltb, if◌then◌else◌}
use sdrportal.Str.{replace, strip, join, has_infix}

-- `text.encode('ascii', 'replace')`: a question mark for each character outside the range.
unfoldable pub encode_replace : Text → Text
encode_replace [] = []
encode_replace (c ∷ s) = (if ltb c 128 then c else 63) ∷ encode_replace s

-- `utoascii(text)`
unfoldable pub utoascii : Option Text → Text
unfolding encode_replace replace
utoascii none = []
utoascii (some text) = replace 34 (92 ∷ 34 ∷ []) (encode_replace text)

abbrev pub blank_line : Text
blank_line = 10 ∷ 10 ∷ []

abbrev pub unless_empty : Text → List Text → List Text
unless_empty [] rest = rest
unless_empty (c ∷ s) rest = (c ∷ s) ∷ rest

-- The end of `combine_descriptions`, from the two descriptions on.
unfoldable pub combine_texts : Text → Text → Text
unfolding strip join utoascii
combine_texts brief detailed = strip (
    utoascii
      (some (join blank_line (unless_empty (strip brief) (unless_empty (strip detailed) [])))))

-- `entry_templ.format(name=name, docstring=docstring)`
unfoldable pub entry_text : Text → Text → Text
entry_text name docstring =
    codes "%feature(\"docstring\") " ++ (name ++ (codes " \"" ++ (docstring ++ codes "\"")))

-- `if "operator " in name`
abbrev pub operator_word : Text
operator_word = codes "operator "

abbrev pub entry_unless_empty : Text → Text → Text
entry_unless_empty name [] = []
entry_unless_empty name (c ∷ docstring) = entry_text name (c ∷ docstring)

-- The end of `make_entry`, from the name and the description on. The template is the text behind
-- the description: `templ` is always `{description}` and a text without braces.
unfoldable pub entry_of : Text → Text → Text → Text
unfolding has_infix entry_text
entry_of name suffix description =
    if has_infix operator_word name then [] else entry_unless_empty name (description ++ suffix)

abbrev pub signature : List Text → Text
signature [] = codes "Params: (NONE)"
signature (p ∷ ps) = codes "Params: (" ++ (join (codes ", ") (p ∷ ps) ++ codes ")")

-- What `make_func_entry` puts behind the description: `utoascii` of the template.
unfoldable pub params_suffix : List Text → Text
unfolding utoascii join
params_suffix params = utoascii (some (blank_line ++ signature params))
