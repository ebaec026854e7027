-- ===== src/Bindings/Tables/Graphs.antt =====
-- Classes of compoundsuper.py: graphs and program listings.
use sdrportal.Prelude.{codes, [], ◌∷◌}
use sdrportal.Bindings.Classes.{Class}
use sdrportal.Bindings.Schema.{
  Schema, attr, child, complex, encoded, integer, mixed, object, objects, plain, simple, structured,
  text, texts, valued,
}

abbrev pub graph_type_schema : Schema
graph_type_schema = record {
  shape = structured;
  attributes = [];
  children = child (codes "node") (codes "node") (objects Class.node_type) ∷ [];
}

abbrev pub node_type_schema : Schema
node_type_schema = record {
  shape = structured;
  attributes = attr encoded (codes "id") (codes "id") ∷ [];
  children =
      child (codes "label") (codes "label") text
      ∷ child (codes "link") (codes "link") (object Class.link_type)
      ∷ child (codes "childnode") (codes "childnode") (objects Class.childnode_type)
      ∷ [];
}

abbrev pub childnode_type_schema : Schema
childnode_type_schema = record {
  shape = structured;
  attributes =
      attr plain (codes "relation") (codes "relation")
      ∷ attr encoded (codes "refid") (codes "refid")
      ∷ [];
  children = child (codes "edgelabel") (codes "edgelabel") texts ∷ [];
}

abbrev pub link_type_schema : Schema
link_type_schema = record {
  shape = valued;
  attributes =
      attr encoded (codes "refid") (codes "refid")
      ∷ attr encoded (codes "external") (codes "external")
      ∷ [];
  children = [];
}

abbrev pub listing_type_schema : Schema
listing_type_schema = record {
  shape = structured;
  attributes = [];
  children = child (codes "codeline") (codes "codeline") (objects Class.codeline_type) ∷ [];
}

abbrev pub codeline_type_schema : Schema
codeline_type_schema = record {
  shape = structured;
  attributes =
      attr plain (codes "external") (codes "external")
      ∷ attr integer (codes "lineno") (codes "lineno")
      ∷ attr plain (codes "refkind") (codes "refkind")
      ∷ attr encoded (codes "refid") (codes "refid")
      ∷ [];
  children = child (codes "highlight") (codes "highlight") (objects Class.highlight_type) ∷ [];
}

abbrev pub highlight_type_schema : Schema
highlight_type_schema = record {
  shape = mixed;
  attributes = attr plain (codes "class") (codes "classxx") ∷ [];
  children =
      child (codes "sp") (codes "sp") simple
      ∷ child (codes "ref") (codes "ref") (complex Class.doc_ref_text_type)
      ∷ [];
}
