-- ===== src/Bindings/Build.antt =====
-- `build`, `buildAttributes` and `buildChildren` of compoundsuper.py, for the class of a schema, and
-- `parse` of compound.py.
use sdrportal.Prelude.{
  ℕ, ◌+◌, ◌-◌, ◌*◌, Text, codes, Option, none, some, List, [], ◌∷◌, ◌++◌, Bool, true, false, ◌==◌,
  ◌&&◌, ltb, leb, if◌then◌else◌,
}
use sdrportal.Exc.{Result, ok, err, value_error, attribute_error, ◌>>=◌}
use sdrportal.Str.{strip}
use sdrportal.Dom.{Attrs, Node, element, text, comment, cdata, Nodes, nil, cons, get, local_name}
use sdrportal.Index.Build.{concat_values}
use sdrportal.Bindings.Classes.{Class}
use sdrportal.Bindings.Schema
use sdrportal.Bindings.Schema.{
  AttrKind, plain, encoded, integer, always, Attr, attr, texts, simple, object, objects, title,
  complex, listed, Child, Shape, structured, valued, mixed, valued_mixed, paragraph, find_child,
}
use sdrportal.Bindings.Tables.{schema}
use sdrportal.Bindings.Value.{
  Value, string, instance_of, container, text_category, simple_category, complex_category, Fields,
  set_field, append_field, extend_field, value_of, content_, content, initial,
}

abbrev pub is_digit : ℕ → Bool
is_digit c = leb 48 c && leb c 57

-- The digits of a number, at least one, added to those before them.
unfoldable pub digits : ℕ → Text → Option ℕ
digits n [] = some n
digits n (c ∷ s) = let rest = digits (n * 10 + (c - 48)) s in if is_digit c then rest else none

abbrev pub signed : Bool → Option ℕ → Option Value
signed minus none = none
signed minus (some n) = some (Value.integer (minus && ltb 0 n) n)

abbrev pub some_digits : Text → Option ℕ
some_digits [] = none
some_digits (c ∷ s) = digits 0 (c ∷ s)

abbrev pub after_sign : Text → Option Value
after_sign [] = none
after_sign (c ∷ s) =
    if c == 45
    then signed true (some_digits s)
    else if c == 43
    then signed false (some_digits s)
    else signed false (some_digits (c ∷ s))

-- `int(text)`, for the digits of ASCII.
unfoldable pub parse_int : Text → Option Value
unfolding digits strip
parse_int s = after_sign (strip s)

abbrev pub number : Option Value → Result Value
number none = err value_error
number (some v) = ok v

-- What an attribute is stored as; an integer that is none raises ValueError.
abbrev pub attr_value : AttrKind → Text → Result Value
attr_value integer v = number (parse_int v)
attr_value plain v = ok (string v)
attr_value encoded v = ok (string v)
attr_value always v = ok (string v)

-- `if attrs.get(k): self.f = attrs.get(k).value`
abbrev pub set_attr : AttrKind → Text → Option Text → Fields → Result Fields
set_attr kind f none fs = ok fs
set_attr kind f (some v) fs = do value ← attr_value kind v; ok (set_field f value fs)

-- `buildAttributes`
unfoldable pub build_attributes : List Attr → Attrs → Fields → Result Fields
unfolding get set_field parse_int
build_attributes [] ats fs = ok fs
build_attributes (attr kind key f ∷ rest) ats fs = do
  fs' ← set_attr kind f (get key ats) fs
  build_attributes rest ats fs'

-- What `buildChildren` does with an element: `built` builds an object of a class from it, and `words`
-- is the text of its children.
unfoldable pub place : Child → (Class → Result Value) → Result Text → Fields → Result Fields
unfolding set_field append_field
place c built words fs = elim c.kind [
  | Schema.text ↦ do t ← words; ok (set_field c.field (string t) fs)
  | texts ↦ do t ← words; append_field c.field (string t) fs
  | simple ↦ do t ← words; append_field content_ (container simple_category c.tag (string t)) fs
  | object d ↦ do v ← built d; ok (set_field c.field v fs)
  | title d ↦ do v ← built d; ok (set_field c.field v fs)
  | objects d ↦ do v ← built d; append_field c.field v fs
  | complex d ↦ do v ← built d; append_field content_ (container complex_category c.tag v) fs
  | listed d ↦ do v ← built d; append_field content v fs
]

-- A MixedContainer of a text.
abbrev pub words_item : Text → Value
words_item t = container text_category [] (string t)

-- What `buildChildren` does with a node of text.
unfoldable pub place_text : Shape → Text → Fields → Result Fields
unfolding append_field extend_field
place_text structured t fs = ok fs
place_text valued t fs = extend_field value_of t fs
place_text mixed t fs = append_field content_ (words_item t) fs
place_text valued_mixed t fs = do
  fs' ← append_field content_ (words_item t) fs
  extend_field value_of t fs'
place_text paragraph t fs = do
  fs1 ← append_field content_ (words_item t) fs
  fs2 ← extend_field value_of t fs1
  append_field content (words_item t) fs2

abbrev pub cdata_text : Text → Text
cdata_text t = codes "![CDATA[" ++ (t ++ codes "]]")

-- What `buildChildren` does with a section of character data.
unfoldable pub place_cdata : Shape → Text → Fields → Result Fields
unfolding extend_field
place_cdata structured t fs = ok fs
place_cdata mixed t fs = ok fs
place_cdata valued t fs = extend_field value_of (cdata_text t) fs
place_cdata valued_mixed t fs = extend_field value_of (cdata_text t) fs
place_cdata paragraph t fs = extend_field value_of (cdata_text t) fs

abbrev pub place_found :
    Option Child → (Class → Result Value) → Result Text → Fields → Result Fields
place_found none built words fs = ok fs
place_found (some c) built words fs = place c built words fs

unfoldable mutual
  unfolding build_attributes place place_text place_cdata find_child initial local_name
      concat_values

  pub build_child : Class → Node → Fields → Result Fields
  build_child c (element n ats cs) fs =
      place_found (find_child (local_name n) (schema c).children)
        (λ d. build_attributes (schema d).attributes ats (initial (schema d)) >>= λ gs.
          build_children d cs gs >>= λ hs. ok (instance_of d hs))
        (concat_values [] cs) fs
  build_child c (text t) fs = place_text (schema c).shape t fs
  build_child c (cdata t) fs = place_cdata (schema c).shape t fs
  build_child c (comment t) fs = ok fs

  pub build_children : Class → Nodes → Fields → Result Fields
  build_children c nil fs = ok fs
  build_children c (cons n ns) fs = build_child c n fs >>= λ gs. build_children c ns gs

-- `T.factory()` and `build`, of the class `d`.
unfoldable pub build : Class → Attrs → Nodes → Result Value
unfolding build_children
build d ats cs = do
  fs ← build_attributes (schema d).attributes ats (initial (schema d))
  gs ← build_children d cs fs
  ok (instance_of d gs)

-- `parse`, from the document element on.
unfoldable pub parse_compound : Node → Result Value
unfolding build
parse_compound (element n ats cs) = build Class.doxygen_type ats cs
parse_compound (text t) = err attribute_error
parse_compound (cdata t) = err attribute_error
parse_compound (comment t) = err attribute_error
