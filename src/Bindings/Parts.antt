-- ===== src/Bindings/Parts.antt =====
-- The parts of `export` of compoundsuper.py that look at one object alone: attributes, texts, values,
-- and `hasContent_`. A field of another kind than its class declares raises AttributeError here.
use sdrportal.Prelude.{
  ℕ, Text, codes, Option, none, some, List, [], ◌∷◌, ◌++◌, Bool, true, false, if◌then◌else◌,
}
use sdrportal.Exc.{Result, ok, err, attribute_error, ◌>>=◌}
use sdrportal.Str.{join, split, has_infix}
use sdrportal.Quote.{quote_attrib, quote_xml, encode_ascii}
use sdrportal.Index.Export.{show_indent, encoded_attr}
use sdrportal.Bindings.Schema.{
  AttrKind, plain, encoded, always, Attr, attr, ChildKind, text, texts, simple, object, objects,
  title, complex, listed, Child, Shape, structured, valued, mixed, valued_mixed, paragraph, Schema,
}
use sdrportal.Bindings.Schema
use sdrportal.Bindings.Value.{
  Value, nothing, string, integer, Values, nil, cons, Fields, get_field, value_of,
}
use sdrportal.Bindings.Decimal.{integer_text}

-- `self.k`
abbrev pub read : Text → Fields → Result Value
read k fs = elim (get_field k fs) [ none ↦ err attribute_error | some v ↦ ok v ]

-- ` key=value`, not encoded
abbrev plain_attr : Text → Option Text → Text
plain_attr key v = codes " " ++ (key ++ (codes "=" ++ quote_attrib v))

-- What `exportAttributes` writes for an attribute.
unfoldable pub attr_text : AttrKind → Text → Value → Result Text
unfolding quote_attrib encoded_attr integer_text
attr_text plain key nothing = ok []
attr_text plain key (string v) = ok (plain_attr key (some v))
attr_text encoded key nothing = ok []
attr_text encoded key (string v) = encoded_attr key (some v)
attr_text always key nothing = ok (plain_attr key none)
attr_text always key (string v) = ok (plain_attr key (some v))
attr_text Schema.integer key nothing = ok []
attr_text Schema.integer key (integer minus n) =
    ok (codes " " ++ (key ++ (codes "=\"" ++ (integer_text minus n ++ codes "\""))))
attr_text _ key v = err attribute_error

-- `exportAttributes`
unfoldable pub export_attributes : List Attr → Fields → Result Text
unfolding get_field attr_text
export_attributes [] fs = ok []
export_attributes (attr kind key k ∷ rest) fs = do
  v ← read k fs
  first ← attr_text kind key v
  others ← export_attributes rest fs
  ok (first ++ others)

-- A line `<tag>text</tag>`.
unfoldable pub text_line : ℕ → Text → Text → Result Text
unfolding show_indent quote_xml encode_ascii
text_line level tag t = do
  value ← encode_ascii (quote_xml (some t))
  ok (
      show_indent level
      ++ (codes "<" ++ (tag ++ (codes ">" ++ (value ++ (codes "</" ++ (tag ++ codes ">\n")))))))

unfoldable pub text_lines : ℕ → Text → Values → Result Text
unfolding text_line
text_lines level tag nil = ok []
text_lines level tag (cons (string t) vs) = do
  first ← text_line level tag t
  rest ← text_lines level tag vs
  ok (first ++ rest)
text_lines level tag (cons v vs) = err attribute_error

-- `s.replace(old, new)`
abbrev replace_text : Text → Text → Text → Text
replace_text old new s = join new (split old s)

-- `exportChildren` of a class that has a value: the quoted text, in which sections of character data
-- get their brackets back.
unfoldable pub value_text : Text → Text
unfolding quote_xml has_infix join split
value_text s =
    if has_infix (codes "![CDATA") s
    then replace_text (codes "]]") (codes "]]>")
        (replace_text (codes "![CDATA") (codes "<![CDATA") (quote_xml (some s)))
    else quote_xml (some s)

abbrev pub write_value : Value → Result Text
write_value (string s) = ok (value_text s)
write_value v = err attribute_error

-- `v is not None or rest`
abbrev pub present : Value → Result Bool → Result Bool
present nothing rest = rest
present v rest = ok true

-- `hasContent_`: whether one of the children's fields is not `None`.
unfoldable pub has_children : List Child → Fields → Result Bool
unfolding get_field
has_children [] fs = ok false
has_children (c ∷ cs) fs = read c.field fs >>= λ v. present v (has_children cs fs)

abbrev pub not_nothing : Value → Bool
not_nothing nothing = false
not_nothing v = true

-- `hasContent_` of a class: by its children, or, where it has a value, by that.
unfoldable pub has_content : Shape → List Child → Fields → Result Bool
unfolding has_children get_field
has_content structured cs fs = has_children cs fs
has_content mixed cs fs = has_children cs fs
has_content _ cs fs = read value_of fs >>= λ v. ok (not_nothing v)
