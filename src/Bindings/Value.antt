-- ===== src/Bindings/Value.antt =====
-- The values that the bindings build: Python objects with their fields, by name.
use sdrportal.Prelude.{
  ℕ, Text, codes, Option, none, some, List, [], ◌∷◌, ◌++◌, Bool, text_eq, if◌then◌else◌,
}
use sdrportal.Exc.{Result, ok, err, attribute_error, type_error, ◌>>=◌}
use sdrportal.Bindings.Classes.{Class}
use sdrportal.Bindings.Schema.{
  Attr, attr, ChildKind, text, texts, simple, object, objects, title, complex, listed, Child, Shape,
  structured, valued, mixed, valued_mixed, paragraph, Schema,
}

-- The categories of a MixedContainer that the bindings make; a simple one is always a string.
pub data Category : Type 0 where
  text_category simple_category complex_category : Category

mutual
  -- `integer` has the sign and the magnitude; `container` is a MixedContainer with its name.
  pub data Value : Type 0 where
    nothing : Value
    string : Text → Value
    integer : Bool → ℕ → Value
    array : Values → Value
    instance_of : Class → Fields → Value
    container : Category → Text → Value → Value

  pub data Values : Type 0 where
    nil : Values
    cons : Value → Values → Values

  pub data Fields : Type 0 where
    end : Fields
    field : Text → Value → Fields → Fields

unfoldable pub get_field : Text → Fields → Option Value
unfolding text_eq
get_field k end = none
get_field k (field j v fs) = if text_eq j k then some v else get_field k fs

unfoldable pub set_field : Text → Value → Fields → Fields
unfolding text_eq
set_field k v end = field k v end
set_field k v (field j w fs) = if text_eq j k then field j v fs else field j w (set_field k v fs)

unfoldable pub snoc : Values → Value → Values
snoc nil v = cons v nil
snoc (cons w ws) v = cons w (snoc ws v)

abbrev pub with_item : Value → Option Value → Result Value
with_item v (some (array vs)) = ok (array (snoc vs v))
with_item v _ = err attribute_error

-- `self.k.append(v)`
unfoldable pub append_field : Text → Value → Fields → Result Fields
unfolding get_field set_field snoc
append_field k v fs = with_item v (get_field k fs) >>= λ items. ok (set_field k items fs)

abbrev pub with_text : Text → Option Value → Result Value
with_text t (some (string s)) = ok (string (s ++ t))
with_text t none = err attribute_error
with_text t _ = err type_error

-- `self.k += t`
unfoldable pub extend_field : Text → Text → Fields → Result Fields
unfolding get_field set_field
extend_field k t fs = with_text t (get_field k fs) >>= λ s. ok (set_field k s fs)

abbrev pub value_of : Text
value_of = codes "valueOf_"

abbrev pub content_ : Text
content_ = codes "content_"

abbrev pub content : Text
content = codes "content"

-- The fields that `__init__` gives to an object of a class with this shape. `valueOf_` of a class
-- with mixed content is set by `build` instead, before it looks at a child.
unfoldable pub shape_fields : Shape → Fields
shape_fields structured = end
shape_fields valued = field value_of (string []) end
shape_fields mixed = field content_ (array nil) end
shape_fields valued_mixed = field content_ (array nil) (field value_of (string []) end)
shape_fields paragraph =
    field content_ (array nil) (field content (array nil) (field value_of (string []) end))

-- The field that `__init__` sets for a child, as `factory` calls it: compound.py gives the empty
-- text for a text.
abbrev pub child_field : ChildKind → Text → Fields → Fields
child_field text k fs = field k (string []) fs
child_field texts k fs = field k (array nil) fs
child_field (object c) k fs = field k nothing fs
child_field (objects c) k fs = field k (array nil) fs
child_field (title c) k fs = field k (string []) fs
child_field simple k fs = fs
child_field (complex c) k fs = fs
child_field (listed c) k fs = fs

unfoldable pub child_fields : List Child → Fields → Fields
child_fields [] fs = fs
child_fields (c ∷ cs) fs = child_field c.kind c.field (child_fields cs fs)

unfoldable pub attr_fields : List Attr → Fields → Fields
attr_fields [] fs = fs
attr_fields (attr kind key k ∷ rest) fs = field k nothing (attr_fields rest fs)

-- The fields of a new object.
unfoldable pub initial : Schema → Fields
unfolding shape_fields child_fields attr_fields
initial s = attr_fields s.attributes (child_fields s.children (shape_fields s.shape))
