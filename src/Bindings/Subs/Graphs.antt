-- ===== src/Bindings/Subs/Graphs.antt =====
-- The constructors of compound.py: graphs and listings.
use sdrportal.Prelude.{codes, [], ◌∷◌}
use sdrportal.Bindings.Constructors.{Sub, none_by_default, empty_by_default}

abbrev pub graph_type_sub : Sub
graph_type_sub = record {
  parameters = none_by_default (codes "node") ∷ [];
  passed = codes "node" ∷ [];
}

abbrev pub node_type_sub : Sub
node_type_sub = record {
  parameters =
      none_by_default (codes "id")
      ∷ empty_by_default (codes "label")
      ∷ none_by_default (codes "link")
      ∷ none_by_default (codes "childnode")
      ∷ [];
  passed = codes "id" ∷ codes "label" ∷ codes "link" ∷ codes "childnode" ∷ [];
}

abbrev pub childnode_type_sub : Sub
childnode_type_sub = record {
  parameters =
      none_by_default (codes "relation")
      ∷ none_by_default (codes "refid")
      ∷ none_by_default (codes "edgelabel")
      ∷ [];
  passed = codes "relation" ∷ codes "refid" ∷ codes "edgelabel" ∷ [];
}

abbrev pub link_type_sub : Sub
link_type_sub = record {
  parameters =
      none_by_default (codes "refid")
      ∷ none_by_default (codes "external")
      ∷ empty_by_default (codes "valueOf_")
      ∷ [];
  passed = codes "refid" ∷ codes "external" ∷ [];
}

abbrev pub listing_type_sub : Sub
listing_type_sub = record {
  parameters = none_by_default (codes "codeline") ∷ [];
  passed = codes "codeline" ∷ [];
}

abbrev pub codeline_type_sub : Sub
codeline_type_sub = record {
  parameters =
      none_by_default (codes "external")
      ∷ none_by_default (codes "lineno")
      ∷ none_by_default (codes "refkind")
      ∷ none_by_default (codes "refid")
      ∷ none_by_default (codes "highlight")
      ∷ [];
  passed =
      codes "external" ∷ codes "lineno" ∷ codes "refkind" ∷ codes "refid" ∷ codes "highlight" ∷ [];
}

abbrev pub highlight_type_sub : Sub
highlight_type_sub = record {
  parameters =
      none_by_default (codes "class_")
      ∷ none_by_default (codes "sp")
      ∷ none_by_default (codes "ref")
      ∷ none_by_default (codes "mixedclass_")
      ∷ none_by_default (codes "content_")
      ∷ [];
  passed = codes "mixedclass_" ∷ codes "content_" ∷ [];
}
