-- ===== src/Bindings/Export.antt =====
-- `export` and its parts, of compoundsuper.py, for the class of a schema: how an object writes itself
-- as XML. What had been written before an exception is not kept, and the namespaces are the default,
-- the empty text. A field of another kind than its class declares raises AttributeError here.
use sdrportal.Prelude.{
  Bool, ℕ, suc, Text, codes, none, some, List, [], ◌∷◌, ◌++◌, text_eq, if◌then◌else◌,
}
use sdrportal.Prelude.{Bool, true, false}
use sdrportal.Exc.{Result, ok, err, attribute_error, ◌>>=◌}
use sdrportal.Index.Export.{show_indent, frame}
use sdrportal.Bindings.Classes.{Class}
use sdrportal.Bindings.Schema.{
  Shape, ChildKind, text, texts, simple, object, objects, title, complex, listed, Child, structured,
  valued, mixed, Schema,
}
use sdrportal.Bindings.Tables.{schema}
use sdrportal.Bindings.Value.{
  text_category, simple_category, complex_category, Value, nothing, string, integer, array,
  instance_of, container, Values, nil, cons, Fields, end, field, get_field, value_of, content_,
}
use sdrportal.Bindings.Parts.{
  read, export_attributes, text_line, text_lines, value_text, write_value, has_content,
}

abbrev pub one_line : (Class → Fields → Text) → ℕ → Text → Value → Result Text
one_line repr level tag nothing = ok []
one_line repr level tag (string t) = text_line level tag t
one_line repr level tag (instance_of d gs) = text_line level tag (repr d gs)
one_line repr level tag v = err attribute_error

abbrev pub lines : ℕ → Text → Value → Result Text
lines level tag (array vs) = text_lines level tag vs
lines level tag v = err attribute_error

-- What `exportChildren` of a class without text writes for a child with this value. `repr` is the
-- text of an object for `%s`, and `inside` exports the objects of a field.
unfoldable pub field_text :
    (Class → Fields → Text)
    → (Text → ℕ → Text → Result Text)
    → ℕ
    → ChildKind
    → Text
    → Text
    → Value
    → Result Text
unfolding text_line text_lines
field_text repr inside level text k tag v = one_line repr level tag v
field_text repr inside level (title d) k tag v = one_line repr level tag v
field_text repr inside level texts k tag v = lines level tag v
field_text repr inside level (object d) k tag v = inside k level tag
field_text repr inside level (objects d) k tag v = inside k level tag
field_text repr inside level simple k tag v = err attribute_error
field_text repr inside level (complex d) k tag v = err attribute_error
field_text repr inside level (listed d) k tag v = ok []

unfoldable pub children_text :
    (Class → Fields → Text)
    → (Text → ℕ → Text → Result Text)
    → ℕ
    → List Child
    → Fields
    → Result Text
unfolding field_text get_field
children_text repr inside level [] fs = ok []
children_text repr inside level (c ∷ cs) fs = do
  first ← read c.field fs >>= λ v. field_text repr inside level c.kind c.field c.tag v
  rest ← children_text repr inside level cs fs
  ok (first ++ rest)

-- `exportChildren`
unfoldable pub export_children :
    (Class → Fields → Text)
    → (Text → ℕ → Text → Result Text)
    → ℕ
    → Shape
    → List Child
    → Fields
    → Result Text
unfolding children_text value_text get_field
export_children repr inside level structured cs fs = children_text repr inside level cs fs
export_children repr inside level mixed cs fs = inside content_ level []
export_children repr inside level _ cs fs = read value_of fs >>= write_value

abbrev pub framed_text :
    (Class → Fields → Text)
    → (Text → ℕ → Text → Result Text)
    → ℕ
    → Text
    → Schema
    → Fields
    → Result Text
framed_text repr inside level name s fs = do
  attrs ← export_attributes s.attributes fs
  some_content ← has_content s.shape s.children fs
  content ←
      (if some_content
        then (do t ← export_children repr inside (suc level) s.shape s.children fs; ok (some t))
        else ok none)
  ok (frame level name attrs content)

abbrev pub inline_text :
    (Class → Fields → Text)
    → (Text → ℕ → Text → Result Text)
    → ℕ
    → Text
    → Schema
    → Fields
    → Result Text
inline_text repr inside level name s fs = do
  attrs ← export_attributes s.attributes fs
  content ← export_children repr inside (suc level) s.shape s.children fs
  ok (
      show_indent level
      ++ (codes "<"
          ++ (name
              ++ (codes " "
                  ++ (attrs
                      ++ (codes ">" ++ (content ++ (codes "</" ++ (name ++ codes ">\n")))))))))

-- The classes whose text follows the tag at once.
abbrev pub is_inline : Shape → Bool
is_inline structured = false
is_inline valued = false
is_inline _ = true

-- `export` of an object.
unfoldable pub object_text :
    (Class → Fields → Text)
    → (Text → ℕ → Text → Result Text)
    → ℕ
    → Text
    → Schema
    → Fields
    → Result Text
unfolding export_attributes has_content export_children frame show_indent
object_text repr inside level name s fs =
    if is_inline s.shape
    then inline_text repr inside level name s fs
    else framed_text repr inside level name s fs

unfoldable mutual
  unfolding object_text schema text_eq

  -- `export`, of an object or a MixedContainer; nothing for `None`, which the callers ask for first,
  -- and one after the other for a list.
  pub export : (Class → Fields → Text) → Value → ℕ → Text → Result Text
  export repr nothing level name = ok []
  export repr (string t) level name = err attribute_error
  export repr (integer minus n) level name = err attribute_error
  export repr (array vs) level name = export_all repr vs level name
  export repr (instance_of c fs) level name =
      object_text repr (λ k lv tag. export_field repr fs k lv tag) level name (schema c) fs
  export repr (container cat own (string t)) level name = elim cat [
    | text_category ↦ ok t
    | simple_category ↦
        ok (codes "<" ++ (own ++ (codes ">" ++ (t ++ (codes "</" ++ (own ++ codes ">"))))))
    | complex_category ↦ err attribute_error
  ]
  export repr (container cat own v) level name = export repr v level own

  pub export_all : (Class → Fields → Text) → Values → ℕ → Text → Result Text
  export_all repr nil level name = ok []
  export_all repr (cons v vs) level name = export repr v level name >>= λ first.
      export_all repr vs level name >>= λ rest. ok (first ++ rest)

  -- The objects in a field.
  pub export_field : (Class → Fields → Text) → Fields → Text → ℕ → Text → Result Text
  export_field repr end k level name = err attribute_error
  export_field repr (field j v fs) k level name =
      let here = export repr v level name in
      let there = export_field repr fs k level name in if text_eq j k then here else there
