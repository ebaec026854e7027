-- ===== src/Bindings/Schema.antt =====
-- What one class of compoundsuper.py is made of. All of its classes were written by a generator from
-- the XML schema of doxygen, and each method is one of a few texts with other names in it; a schema
-- is what differs from class to class.
use sdrportal.Prelude.{Text, Option, none, some, List, [], ◌∷◌, text_eq, if◌then◌else◌}
use sdrportal.Bindings.Classes.{Class}

-- How an attribute is built and written: as it is; encoded; as an integer; or written also when it
-- is `None`, as the version of DoxygenType is.
pub data AttrKind : Type 0 where
  plain encoded integer always : AttrKind

-- The kind, the name in the document, and the field.
pub data Attr : Type 0 where
  attr : AttrKind → Text → Text → Attr

-- What a child element becomes: a text in the field, or in a list; an object of a class in the field,
-- or in a list; an object that `export` takes for a text, as the title of a compounddef; in a class
-- with mixed content, a MixedContainer of an object or of a text; and in a paragraph, an object in
-- the list `content`.
pub data ChildKind : Type 0 where
  text texts simple : ChildKind
  object objects title complex listed : Class → ChildKind

pub record Child : Type 0 where
  pub tag : Text
  pub field : Text
  pub kind : ChildKind

abbrev pub child : Text → Text → ChildKind → Child
child tag field kind = record { tag = tag; field = field; kind = kind }

-- What a class does with the text between the elements: nothing; it collects it in `valueOf_`; it
-- puts it into `content_`; both; or both and into the list `content`, as compound.py's docParaTypeSub.
pub data Shape : Type 0 where
  structured valued mixed valued_mixed paragraph : Shape

pub record Schema : Type 0 where
  pub shape : Shape
  pub attributes : List Attr
  pub children : List Child

-- The branch of `buildChildren` for an element of this name: the first that compares equal.
unfoldable pub find_child : Text → List Child → Option Child
unfolding text_eq
find_child n [] = none
find_child n (c ∷ cs) = if text_eq c.tag n then some c else find_child n cs
