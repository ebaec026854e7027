-- ===== src/Bindings/Literal.antt =====
-- `exportLiteral` and its parts, of compoundsuper.py, for the class of a schema: how an object writes
-- itself as Python source.
use sdrportal.Prelude.{
  ℕ, suc, Text, codes, Option, none, some, List, [], ◌∷◌, ◌++◌, Bool, text_eq, if◌then◌else◌,
}
use sdrportal.Exc.{Result, ok, err, attribute_error, ◌>>=◌}
use sdrportal.Quote.{quote_python, encode_ascii}
use sdrportal.Index.Export.{show_indent}
use sdrportal.Bindings.Schema.{
  AttrKind, plain, encoded, always, Attr, attr, ChildKind, text, texts, simple, object, objects,
  title, complex, listed, Child, Shape, structured, valued, mixed, valued_mixed, paragraph, Schema,
}
use sdrportal.Bindings.Schema
use sdrportal.Bindings.Tables.{schema}
use sdrportal.Bindings.Names.{class_name}
use sdrportal.Bindings.Value.{
  text_category, simple_category, complex_category, Value, nothing, string, integer, array,
  instance_of, container, Values, nil, cons, Fields, end, field, value_of, content_,
}
use sdrportal.Bindings.Decimal.{integer_text}
use sdrportal.Bindings.Parts.{read, has_content}

abbrev line : ℕ → Text → Text
line level t = show_indent level ++ t

-- `key = "value",`
abbrev quoted_line : ℕ → Text → Text → Text
quoted_line level k v = line level (k ++ (codes " = \"" ++ (v ++ codes "\",\n")))

-- `key = value,`
abbrev bare_line : ℕ → Text → Text → Text
bare_line level k v = line level (k ++ (codes " = " ++ (v ++ codes ",\n")))

-- What `exportLiteralAttributes` writes for an attribute.
unfoldable pub attr_literal : ℕ → AttrKind → Text → Value → Result Text
unfolding show_indent integer_text
attr_literal level kind k nothing = ok []
attr_literal level plain k (string v) = ok (quoted_line level k v)
attr_literal level always k (string v) = ok (quoted_line level k v)
attr_literal level encoded k (string v) = ok (bare_line level k v)
attr_literal level Schema.integer k (integer minus n) =
    ok (bare_line level k (integer_text minus n))
attr_literal level _ k v = err attribute_error

-- `exportLiteralAttributes`
unfoldable pub literal_attributes : ℕ → List Attr → Fields → Result Text
unfolding attr_literal
literal_attributes level [] fs = ok []
literal_attributes level (attr kind key k ∷ rest) fs = do
  v ← read k fs
  first ← attr_literal level kind k v
  others ← literal_attributes level rest fs
  ok (first ++ others)

-- A line of a text after `start`; `quote_python` asks it for its method `find`, which only texts have.
unfoldable pub text_literal : ℕ → Text → Value → Result Text
unfolding quote_python encode_ascii show_indent
text_literal level start (string t) = do
  q ← encode_ascii (quote_python t)
  ok (line level (start ++ (q ++ codes ",\n")))
text_literal level start v = err attribute_error

unfoldable pub texts_literal : ℕ → Values → Result Text
unfolding text_literal
texts_literal level nil = ok []
texts_literal level (cons v vs) = do
  first ← text_literal level [] v
  rest ← texts_literal level vs
  ok (first ++ rest)

-- A list: its items, in the lines that open and close it.
abbrev list_literal : ℕ → Text → Result Text → Result Text
list_literal level k items = do
  body ← items
  ok (line level (k ++ codes "[\n") ++ (body ++ line level (codes "],\n")))

-- Whether Python takes the value of an object's field for false.
abbrev is_false : Value → Bool
is_false nothing = Bool.true
is_false (string []) = Bool.true
is_false v = Bool.false

-- An object, in the call that makes it, if there is one.
abbrev call_literal : (Option Text → Text → ℕ → Result Text) → ℕ → Text → Text → Value → Result Text
call_literal inside level k name v =
    if is_false v
    then ok []
    else inside (some (k ++ (codes "=model_." ++ (name ++ codes "(\n")))) k level

-- What `exportLiteralChildren` writes for a child; `inside` writes the objects of a field, each in the
-- call whose opening it is given.
unfoldable pub child_literal :
    (Option Text → Text → ℕ → Result Text) → ℕ → Child → Fields → Result Text
unfolding text_literal texts_literal class_name show_indent
child_literal inside level c fs = elim c.kind [
  | text ↦ read c.field fs >>= λ v. text_literal level (c.field ++ codes "=") v
  | texts ↦ read c.field fs >>= λ v. list_literal level (c.field ++ codes "=") (lines v)
  | object d ↦ read c.field fs >>= λ v. call_literal inside level c.field (class_name d) v
  | title d ↦ read c.field fs >>= λ v. call_literal inside level c.field (codes "xsd_string") v
  | objects d ↦
      list_literal level (c.field ++ codes "=")
        (inside (some (codes "model_." ++ (c.tag ++ codes "(\n"))) c.field (suc level))
  | simple ↦ content_literal
  | complex d ↦ content_literal
  | listed d ↦ ok []
]
  where
    lines : Value → Result Text
    lines (array vs) = texts_literal (suc level) vs
    lines v = err attribute_error

    content_literal : Result Text
    content_literal = list_literal level (codes "content_ = ") (inside none content_ level)

unfoldable pub children_literal :
    (Option Text → Text → ℕ → Result Text) → ℕ → List Child → Fields → Result Text
unfolding child_literal
children_literal inside level [] fs = ok []
children_literal inside level (c ∷ cs) fs = do
  first ← child_literal inside level c fs
  rest ← children_literal inside level cs fs
  ok (first ++ rest)

abbrev pub value_literal : ℕ → Value → Result Text
value_literal level (string s) = ok (quoted_line level (codes "valueOf_") s)
value_literal level v = err attribute_error

-- `exportLiteralChildren`: a class with mixed content writes its content once for each of the
-- children in its schema.
unfoldable pub literal_children :
    (Option Text → Text → ℕ → Result Text) → ℕ → Schema → Fields → Result Text
unfolding children_literal show_indent
literal_children inside level s fs = elim s.shape [
  | structured ↦ children_literal inside level s.children fs
  | mixed ↦ children_literal inside level s.children fs
  | valued ↦ read value_of fs >>= value_literal level
  | valued_mixed ↦ read value_of fs >>= value_literal level
  | paragraph ↦ read value_of fs >>= value_literal level
]

-- `exportLiteral` of an object.
unfoldable pub object_literal :
    (Option Text → Text → ℕ → Result Text) → ℕ → Schema → Fields → Result Text
unfolding literal_attributes has_content literal_children
object_literal inside level s fs = do
  attrs ← literal_attributes (suc level) s.attributes fs
  some_content ← has_content s.shape s.children fs
  content ← (if some_content then literal_children inside (suc level) s fs else ok [])
  ok (attrs ++ content)

abbrev pub in_call : Option Text → ℕ → Result Text → Result Text
in_call none level body = body
in_call (some opening) level body = do
  inner ← body
  ok (line level opening ++ (inner ++ line level (codes "),\n")))

-- `MixedContainer(category, type, "name"` with what follows the name.
abbrev container_line : ℕ → Text → Text → Text → Text
container_line level numbers name after =
    line level
      (codes "MixedContainer(" ++ (numbers ++ (codes ", \"" ++ (name ++ (codes "\"," ++ after)))))

unfoldable mutual
  unfolding object_literal schema text_eq show_indent

  -- `exportLiteral`, of an object or a MixedContainer; one after the other for a list.
  pub literal : Option Text → Value → ℕ → Result Text
  literal opening nothing level = err attribute_error
  literal opening (string t) level = err attribute_error
  literal opening (integer minus n) level = err attribute_error
  literal opening (array vs) level = literal_all opening vs level
  literal opening (instance_of c fs) level =
      in_call opening level (object_literal (λ o k lv. literal_field o fs k lv) level (schema c) fs)
  literal opening (container cat own (string t)) level = elim cat [
    | text_category ↦
        ok (container_line level (codes "1, 0") own (codes " \"" ++ (t ++ codes "\"),\n")))
    | simple_category ↦
        ok (container_line level (codes "2, 2") own (codes " \"" ++ (t ++ codes "\"),\n")))
    | complex_category ↦ err attribute_error
  ]
  literal opening (container cat own v) level = literal none v (suc level) >>= λ inner.
      ok (
        container_line level (codes "3, 0") own (codes "\n") ++ (inner ++ line level (codes ")\n")))

  pub literal_all : Option Text → Values → ℕ → Result Text
  literal_all opening nil level = ok []
  literal_all opening (cons v vs) level = literal opening v level >>= λ first.
      literal_all opening vs level >>= λ rest. ok (first ++ rest)

  -- The objects in a field.
  pub literal_field : Option Text → Fields → Text → ℕ → Result Text
  literal_field opening end k level = err attribute_error
  literal_field opening (field j v fs) k level =
      let here = literal opening v level in
      let there = literal_field opening fs k level in if text_eq j k then here else there
