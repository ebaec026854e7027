-- ===== src/Index/RoundTrip.antt =====
-- About `parse` of index.py at the document of an index.
use sdrportal.Prelude.{
  ℕ, suc, ◌≡◌, refl, ◌∙◌, Text, some, List, [], ◌∷◌, ◌++◌, map, append_assoc, append-nil,
}
use sdrportal.Exc.{ok}
use sdrportal.Dom.{Nodes, nil, ◌▹◌}
use sdrportal.Index.{CompoundType, DoxygenType, member_factory, compound_factory}
use sdrportal.Index.Build.{member_build, compound_children, compound_build, doxygen_children, parse}
use sdrportal.Index.ToDom.{
  PlainMember, PlainCompound, PlainIndex, member_object, compound_object, index_object, line_break,
  member_node, member_nodes, compound_node, compound_nodes, index_node,
}

member_build-member_node :
    (level : ℕ) (m : PlainMember)
    → member_build (member_node level m) member_factory ≡ ok (member_object m)
unfolding member_build
member_build-member_node level m = refl

compound_children-member_nodes :
    (level : ℕ) (ms : List PlainMember) (rest : Nodes) (c : CompoundType)
    → compound_children (member_nodes level ms rest) c
      ≡ compound_children rest (record c { member = c.member ++ map member_object ms })
unfolding compound_children member_nodes
compound_children-member_nodes level [] rest c = rw append-nil
compound_children-member_nodes level (m ∷ ms) rest c =
    compound_children-member_nodes level ms rest
      (record c { member = c.member ++ member_object m ∷ [] })
    ∙ rw append_assoc

compound_build-compound_node :
    (level : ℕ) (c : PlainCompound)
    → compound_build (compound_node level c) compound_factory ≡ ok (compound_object c)
unfolding compound_build
compound_build-compound_node level c =
    compound_children-member_nodes (suc level) c.members (line_break level ▹ nil)
      (record { kind = some c.kind; refid = some c.refid; name = some c.name; member = [] })

doxygen_children-compound_nodes :
    (level : ℕ) (cs : List PlainCompound) (rest : Nodes) (d : DoxygenType)
    → doxygen_children (compound_nodes level cs rest) d
      ≡ doxygen_children rest (record d { compound = d.compound ++ map compound_object cs })
unfolding doxygen_children compound_nodes
doxygen_children-compound_nodes level [] rest d = rw append-nil
doxygen_children-compound_nodes level (c ∷ cs) rest d = rw (compound_build-compound_node level c) (
    doxygen_children-compound_nodes level cs rest
      (record d { compound = d.compound ++ compound_object c ∷ [] })
    ∙ rw append_assoc)

-- Parsing the document of an index builds that index: its version, its compounds and their
-- members in order, with the kinds, the references and the names.
pub parse-index_node :
    (name : Text) (d : PlainIndex) → parse (index_node name d) ≡ ok (index_object d)
unfolding parse index_node
parse-index_node name d =
    doxygen_children-compound_nodes 1 d.compounds (line_break 0 ▹ nil)
      (record { version = some d.version; compound = [] })
