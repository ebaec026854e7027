-- ===== src/Index/Build.antt =====
-- `build`, `buildAttributes` and `buildChildren` of the three classes of indexsuper.py, and `parse`
-- of index.py. The document comes from `minidom.parse`, which is the caller's argument.
use sdrportal.Prelude.{Text, codes, Option, none, some, [], ◌∷◌, ◌++◌, text_eq, if◌then◌else◌}
use sdrportal.Exc.{Result, ok, err, type_error, ◌>>=◌}
use sdrportal.Dom.{
  Attrs, Node, element, text, comment, cdata, Nodes, nil, cons, get, node_value, local_name,
}
use sdrportal.Index.{
  MemberType, CompoundType, DoxygenType, member_factory, compound_factory, doxygen_factory,
}

-- `for child in child_.childNodes: name_ += child.nodeValue`; adding `None` raises TypeError.
unfoldable pub concat_values : Text → Nodes → Result Text
concat_values acc nil = ok acc
concat_values acc (cons n ns) = elim (node_value n) [
  | none ↦ err type_error
  | some v ↦ concat_values (acc ++ v) ns
]

-- `if attrs.get(k): self.k = attrs.get(k).value`
abbrev pub attr_or : Attrs → Text → Option Text → Option Text
attr_or ats k old = elim (get k ats) [ none ↦ old | some v ↦ some v ]

unfoldable pub member_attributes : Attrs → MemberType → MemberType
unfolding get
member_attributes ats m = record m {
  kind = attr_or ats (codes "kind") m.kind;
  refid = attr_or ats (codes "refid") m.refid;
}

unfoldable pub member_child : Node → MemberType → Result MemberType
unfolding concat_values local_name
member_child (element n ats cs) m =
    if text_eq (local_name n) (codes "name")
    then (do name ← concat_values [] cs; ok (record m { name = some name }))
    else ok m
member_child (text s) m = ok m
member_child (comment s) m = ok m
member_child (cdata s) m = ok m

unfoldable pub member_children : Nodes → MemberType → Result MemberType
unfolding member_child
member_children nil m = ok m
member_children (cons n ns) m = do m' ← member_child n m; member_children ns m'

-- `MemberType.build`; only elements are built, so the other kinds of node give no change.
unfoldable pub member_build : Node → MemberType → Result MemberType
unfolding member_attributes member_children
member_build (element n ats cs) m = member_children cs (member_attributes ats m)
member_build (text s) m = ok m
member_build (comment s) m = ok m
member_build (cdata s) m = ok m

unfoldable pub compound_attributes : Attrs → CompoundType → CompoundType
unfolding get
compound_attributes ats c = record c {
  kind = attr_or ats (codes "kind") c.kind;
  refid = attr_or ats (codes "refid") c.refid;
}

unfoldable pub compound_child : Node → CompoundType → Result CompoundType
unfolding member_build concat_values local_name
compound_child (element n ats cs) c =
    if text_eq (local_name n) (codes "name")
    then (do name ← concat_values [] cs; ok (record c { name = some name }))
    else if text_eq (local_name n) (codes "member")
    then (do
      obj ← member_build (element n ats cs) member_factory
      ok (record c { member = c.member ++ obj ∷ [] }))
    else ok c
compound_child (text s) c = ok c
compound_child (comment s) c = ok c
compound_child (cdata s) c = ok c

unfoldable pub compound_children : Nodes → CompoundType → Result CompoundType
unfolding compound_child
compound_children nil c = ok c
compound_children (cons n ns) c = do c' ← compound_child n c; compound_children ns c'

unfoldable pub compound_build : Node → CompoundType → Result CompoundType
unfolding compound_attributes compound_children
compound_build (element n ats cs) c = compound_children cs (compound_attributes ats c)
compound_build (text s) c = ok c
compound_build (comment s) c = ok c
compound_build (cdata s) c = ok c

unfoldable pub doxygen_attributes : Attrs → DoxygenType → DoxygenType
unfolding get
doxygen_attributes ats d = record d { version = attr_or ats (codes "version") d.version }

unfoldable pub doxygen_child : Node → DoxygenType → Result DoxygenType
unfolding compound_build local_name
doxygen_child (element n ats cs) d =
    if text_eq (local_name n) (codes "compound")
    then (do
      obj ← compound_build (element n ats cs) compound_factory
      ok (record d { compound = d.compound ++ obj ∷ [] }))
    else ok d
doxygen_child (text s) d = ok d
doxygen_child (comment s) d = ok d
doxygen_child (cdata s) d = ok d

unfoldable pub doxygen_children : Nodes → DoxygenType → Result DoxygenType
unfolding doxygen_child
doxygen_children nil d = ok d
doxygen_children (cons n ns) d = do d' ← doxygen_child n d; doxygen_children ns d'

unfoldable pub doxygen_build : Node → DoxygenType → Result DoxygenType
unfolding doxygen_attributes doxygen_children
doxygen_build (element n ats cs) d = doxygen_children cs (doxygen_attributes ats d)
doxygen_build (text s) d = ok d
doxygen_build (comment s) d = ok d
doxygen_build (cdata s) d = ok d

-- `parse(inFilename)` of index.py, from the document element on.
unfoldable pub parse : Node → Result DoxygenType
unfolding doxygen_build
parse root = doxygen_build root doxygen_factory
