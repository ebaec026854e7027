-- ===== src/Bindings/Conform.antt =====
-- What values the fields of a bindings' object may have, by the schema of its class.
pub mod Access
pub mod Declares
pub mod Cases
pub mod Outcome
pub mod Faulty
pub mod Initial
pub mod Reading
pub mod Sound
pub mod Written
pub mod ObjectText
pub mod Exported
pub mod Unliteral
pub mod Valued
pub mod Markup
pub mod Described
pub mod Viewed
pub mod Heard
pub mod Marked
pub mod Placed
pub mod Fluent
use sdrportal.Prelude.{
  ℕ, Text, codes, Option, none, some, List, [], ◌∷◌, ◌++◌, Bool, text_eq, if◌then◌else◌, ◌≡◌, ◌≢◌,
}
use sdrportal.Bindings.Classes.{Class}
use sdrportal.Bindings.Schema.{
  AttrKind, plain, encoded, integer, always, Attr, attr, ChildKind, text, texts, simple, object,
  objects, title, complex, listed, Child, Shape, structured, valued, mixed, valued_mixed, paragraph,
  Schema, find_child,
}
use sdrportal.Bindings.Tables.{schema}
use sdrportal.Bindings.Value
use sdrportal.Bindings.Value.{
  Category, text_category, simple_category, complex_category, Value, nothing, string, array,
  instance_of, container, Values, nil, cons, Fields, end, field, value_of, content_, content,
}

-- `None` or a text; `None` or an integer; a text; a list of texts; `None` or an object; a list of
-- objects; a text or an object; the content of a mixed class with these children; and the content of
-- a paragraph.
pub data FieldKind : Type 0 where
  maybe_text maybe_integer a_text many_texts : FieldKind
  maybe many titled listing : Class → FieldKind
  contents : List Child → FieldKind

abbrev pub attr_kind : AttrKind → FieldKind
attr_kind integer = maybe_integer
attr_kind _ = maybe_text

abbrev pub Kinds : Type 0
Kinds = List (Text × FieldKind)

abbrev pub shape_kinds : Shape → List Child → Kinds
shape_kinds structured cs = []
shape_kinds valued cs = (value_of, a_text) ∷ []
shape_kinds mixed cs = (content_, contents cs) ∷ []
shape_kinds valued_mixed cs = (content_, contents cs) ∷ (value_of, a_text) ∷ []
shape_kinds paragraph cs =
    (content_, contents []) ∷ (content, listing Class.doc_ref_text_type) ∷ (value_of, a_text) ∷ []

abbrev pub child_kind : ChildKind → Text → Kinds → Kinds
child_kind text k ds = (k, a_text) ∷ ds
child_kind texts k ds = (k, many_texts) ∷ ds
child_kind (object c) k ds = (k, maybe c) ∷ ds
child_kind (objects c) k ds = (k, many c) ∷ ds
child_kind (title c) k ds = (k, titled c) ∷ ds
child_kind simple k ds = ds
child_kind (complex c) k ds = ds
child_kind (listed c) k ds = ds

abbrev pub child_kinds : List Child → Kinds → Kinds
child_kinds [] ds = ds
child_kinds (c ∷ cs) ds = child_kind c.kind c.field (child_kinds cs ds)

abbrev pub attr_kinds : List Attr → Kinds → Kinds
attr_kinds [] ds = ds
attr_kinds (attr kind key k ∷ rest) ds = (k, attr_kind kind) ∷ attr_kinds rest ds

-- The fields that a class declares, with their kinds.
unfoldable pub declared : Schema → Kinds
declared s = attr_kinds s.attributes (child_kinds s.children (shape_kinds s.shape s.children))

abbrev pub IsOptional : FieldKind → Type 0
IsOptional maybe_text = Unit
IsOptional maybe_integer = Unit
IsOptional (maybe c) = Unit
IsOptional _ = ⊥

abbrev pub TakesText : FieldKind → Type 0
TakesText maybe_text = Unit
TakesText a_text = Unit
TakesText (titled c) = Unit
TakesText _ = ⊥

abbrev pub TakesInteger : FieldKind → Type 0
TakesInteger maybe_integer = Unit
TakesInteger _ = ⊥

abbrev pub TakesObject : FieldKind → Class → Type 0
TakesObject (maybe c) d = c ≡ d
TakesObject (titled c) d = c ≡ d
TakesObject _ d = ⊥

abbrev pub IsList : FieldKind → Type 0
IsList many_texts = Unit
IsList (many c) = Unit
IsList (listing c) = Unit
IsList (contents cs) = Unit
IsList _ = ⊥

abbrev pub ListsText : FieldKind → Type 0
ListsText many_texts = Unit
ListsText _ = ⊥

abbrev pub ListsObject : FieldKind → Class → Type 0
ListsObject (many c) d = c ≡ d
ListsObject (listing c) d = c ≡ d
ListsObject _ d = ⊥

-- The branch of a mixed class for the name `n` is of this kind.
abbrev pub Branch : List Child → Text → ChildKind → Type 0
Branch cs n kind = (c : Child) × (find_child n cs ≡ some c) × (c.kind ≡ kind)

abbrev pub ListsWords : FieldKind → Category → Text → Type 0
ListsWords (contents cs) text_category n = n ≡ []
ListsWords (contents cs) simple_category n = Branch cs n simple
ListsWords (listing c) text_category n = n ≡ []
ListsWords _ _ n = ⊥

abbrev pub ListsPart : FieldKind → Category → Text → Class → Type 0
ListsPart (contents cs) complex_category n d = Branch cs n (complex d)
ListsPart _ _ n d = ⊥

unfoldable mutual
  unfolding declared schema

  -- The value is one that a field of the kind may have.
  pub Fits : Value → FieldKind → Type 0
  Fits nothing κ = IsOptional κ
  Fits (string t) κ = TakesText κ
  Fits (Value.integer m n) κ = TakesInteger κ
  Fits (array vs) κ = IsList κ × AllItems vs κ
  Fits (instance_of d fs) κ = TakesObject κ d × Matches fs (declared (schema d))
  Fits (container cat n v) κ = ⊥

  pub AllItems : Values → FieldKind → Type 0
  AllItems nil κ = Unit
  AllItems (cons v vs) κ = Item v κ × AllItems vs κ

  -- The value is one that a list of the kind may hold.
  pub Item : Value → FieldKind → Type 0
  Item nothing κ = ⊥
  Item (string t) κ = ListsText κ
  Item (Value.integer m n) κ = ⊥
  Item (array vs) κ = ⊥
  Item (instance_of d fs) κ = ListsObject κ d × Matches fs (declared (schema d))
  Item (container cat n v) κ = Contained v cat n κ

  pub Contained : Value → Category → Text → FieldKind → Type 0
  Contained nothing cat n κ = ⊥
  Contained (string t) cat n κ = ListsWords κ cat n
  Contained (Value.integer m j) cat n κ = ⊥
  Contained (array vs) cat n κ = ⊥
  Contained (instance_of d fs) cat n κ = ListsPart κ cat n d × Matches fs (declared (schema d))
  Contained (container c m v) cat n κ = ⊥

  -- The fields are the declared ones, in order, and each has a value of its kind.
  pub Matches : Fields → Kinds → Type 0
  Matches end [] = Unit
  Matches end (d ∷ ds) = ⊥
  Matches (field k v fs) [] = ⊥
  Matches (field k v fs) ((j, κ) ∷ ds) = (k ≡ j) × Fits v κ × Matches fs ds

-- The value is an object of the class, and so are, all the way down, the objects in its fields of
-- the classes that the schemas name.
abbrev pub Conforms : Class → Value → Type 0
Conforms c v = Fits v (maybe c) × (v ≢ nothing)
