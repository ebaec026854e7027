-- ===== src/Bindings/Conform/Marked.antt =====
-- The marked up text of a document: what `description` is to find, stated on the document alone; and
-- the classes that it is stated for.
use sdrportal.Prelude.{
  Text, codes, Option, none, some, List, [], ◌∷◌, ◌++◌, false, text_eq, ◌≡◌, refl,
}
use sdrportal.Exc.{Result, ok, err}
use sdrportal.Dom
use sdrportal.Dom.{Attrs, Node, element, comment, cdata, Nodes, nil, cons, get, local_name}
use sdrportal.Index.Build.{concat_values}
use sdrportal.Describe.{break_after}
use sdrportal.Bindings.Classes.{Class}
use sdrportal.Bindings.Schema.{
  ChildKind, simple, objects, complex, listed, Child, Shape, structured, valued, paragraph,
  find_child,
}
use sdrportal.Bindings.Tables.{schema}
use sdrportal.Bindings.Value.{content_, content}
use sdrportal.Bindings.Conform.{declared}
use sdrportal.Bindings.Conform.Access.{kind_at}
use sdrportal.Bindings.Conform.Markup.{IsMarkup}

-- The field that `description_bit` takes the items of an object of mixed content from.
abbrev pub key : Shape → Text
key paragraph = content
key _ = content_

-- Objects of the class have mixed content and no field `name`.
abbrev pub Fluent : Class → Type 0
Fluent d = IsMarkup (schema d).shape × (kind_at (codes "name") (declared (schema d)) ≡ none)

-- What the branches of `buildChildren` do to a content: in a class with mixed content, they append
-- to it; in a paragraph they do, or they append to another field.
abbrev pub Adds : Shape → ChildKind → Text → Type 0
Adds paragraph (listed d) k = Fluent d
Adds paragraph (objects d) k = text_eq k content ≡ false
Adds paragraph _ k = ⊥
Adds s (complex d) k = Fluent d
Adds s simple k = Unit
Adds s _ k = ⊥

abbrev pub AllAdd : Shape → List Child → Type 0
AllAdd s [] = Unit
AllAdd s (c ∷ cs) = Adds s c.kind c.field × AllAdd s cs

abbrev pub AddsIf : Shape → List Child → Type 0
AddsIf structured cs = Unit
AddsIf valued cs = Unit
AddsIf s cs = AllAdd s cs

pub schema-Adds : (c : Class) → AddsIf (schema c).shape (schema c).children
unfolding declared schema text_eq
schema-Adds Class.description_type = ((tt, refl), ((tt, refl), ((tt, refl), ((tt, refl), tt))))
schema-Adds Class.enumvalue_type = (tt, ((tt, refl), ((tt, refl), ((tt, refl), tt))))
schema-Adds Class.linked_text_type = ((tt, refl), tt)
schema-Adds Class.highlight_type = (tt, ((tt, refl), tt))
schema-Adds Class.doc_sect1_type = ((tt, refl), ((tt, refl), ((tt, refl), ((tt, refl), tt))))
schema-Adds Class.doc_sect2_type = ((tt, refl), ((tt, refl), ((tt, refl), ((tt, refl), tt))))
schema-Adds Class.doc_sect3_type = ((tt, refl), ((tt, refl), ((tt, refl), ((tt, refl), tt))))
schema-Adds Class.doc_sect4_type = ((tt, refl), ((tt, refl), ((tt, refl), tt)))
schema-Adds Class.doc_internal_type = ((tt, refl), ((tt, refl), tt))
schema-Adds Class.doc_internal_s1_type = ((tt, refl), ((tt, refl), tt))
schema-Adds Class.doc_internal_s2_type = ((tt, refl), ((tt, refl), tt))
schema-Adds Class.doc_internal_s3_type = ((tt, refl), ((tt, refl), tt))
schema-Adds Class.doc_internal_s4_type = ((tt, refl), tt)
schema-Adds Class.doc_para_type = ((tt, refl), (refl, (refl, tt)))
schema-Adds Class.doc_param_name = ((tt, refl), tt)
schema-Adds c = _

-- The marked up text of a document's nodes, for the class of the element that they stand in: text as
-- it is, elements that the class knows by their own class, with a break after a paragraph, and nothing
-- for comments, sections of character data and all other elements.
abbrev pub child_text : Option Child → (Class → Text) → Result Text → Text
child_text none marked words = []
child_text (some c) marked words = elim c.kind [
  | complex d ↦ break_after (some c.tag) (marked d)
  | listed d ↦ marked d
  | simple ↦ elim words [ ok t ↦ break_after (some c.tag) t | err e ↦ [] ]
  | _ ↦ []
]

unfoldable mutual
  unfolding find_child schema local_name concat_values

  pub marked_node : Class → Node → Text
  marked_node c (element n ats cs) =
      child_text (find_child (local_name n) (schema c).children) (λ d. marked d cs)
        (concat_values [] cs)
  marked_node c (Dom.text t) = t
  marked_node c (cdata t) = []
  marked_node c (comment t) = []

  pub marked : Class → Nodes → Text
  marked c nil = []
  marked c (cons n ns) = marked_node c n ++ marked c ns
