-- ===== src/Bindings/Tables/Compounds.antt =====
-- Classes of compoundsuper.py: compounds and references.
use sdrportal.Prelude.{codes, List, [], ◌∷◌, ◌++◌}
use sdrportal.Bindings.Classes.{Class}
use sdrportal.Bindings.Schema.{
  Child, Schema, always, attr, child, encoded, object, objects, plain, structured, text, title,
  valued_mixed,
}

abbrev pub doxygen_type_schema : Schema
doxygen_type_schema = record {
  shape = structured;
  attributes = attr always (codes "version") (codes "version") ∷ [];
  children = child (codes "compounddef") (codes "compounddef") (object Class.compounddef_type) ∷ [];
}

-- The references to other compounds, and to files.
abbrev compounddef_references : List Child
compounddef_references =
    child (codes "basecompoundref") (codes "basecompoundref") (objects Class.compound_ref_type)
    ∷ child (codes "derivedcompoundref") (codes "derivedcompoundref")
        (objects Class.compound_ref_type)
    ∷ child (codes "includes") (codes "includes") (objects Class.inc_type)
    ∷ child (codes "includedby") (codes "includedby") (objects Class.inc_type)
    ∷ child (codes "incdepgraph") (codes "incdepgraph") (object Class.graph_type)
    ∷ child (codes "invincdepgraph") (codes "invincdepgraph") (object Class.graph_type)
    ∷ child (codes "innerdir") (codes "innerdir") (objects Class.ref_type)
    ∷ child (codes "innerfile") (codes "innerfile") (objects Class.ref_type)
    ∷ child (codes "innerclass") (codes "innerclass") (objects Class.ref_type)
    ∷ child (codes "innernamespace") (codes "innernamespace") (objects Class.ref_type)
    ∷ child (codes "innerpage") (codes "innerpage") (objects Class.ref_type)
    ∷ child (codes "innergroup") (codes "innergroup") (objects Class.ref_type)
    ∷ []

-- What the compound consists of.
abbrev compounddef_contents : List Child
compounddef_contents =
    child (codes "templateparamlist") (codes "templateparamlist")
      (object Class.templateparamlist_type)
    ∷ child (codes "sectiondef") (codes "sectiondef") (objects Class.sectiondef_type)
    ∷ child (codes "briefdescription") (codes "briefdescription") (object Class.description_type)
    ∷ child (codes "detaileddescription") (codes "detaileddescription")
        (object Class.description_type)
    ∷ child (codes "inheritancegraph") (codes "inheritancegraph") (object Class.graph_type)
    ∷ child (codes "collaborationgraph") (codes "collaborationgraph") (object Class.graph_type)
    ∷ child (codes "programlisting") (codes "programlisting") (object Class.listing_type)
    ∷ child (codes "location") (codes "location") (object Class.location_type)
    ∷ child (codes "listofallmembers") (codes "listofallmembers")
        (object Class.listofallmembers_type)
    ∷ []

abbrev compounddef_children : List Child
compounddef_children =
    child (codes "compoundname") (codes "compoundname") text
    ∷ child (codes "title") (codes "title") (title Class.doc_title_type)
    ∷ (compounddef_references ++ compounddef_contents)

abbrev pub compounddef_type_schema : Schema
compounddef_type_schema = record {
  shape = structured;
  attributes =
      attr plain (codes "kind") (codes "kind")
      ∷ attr plain (codes "prot") (codes "prot")
      ∷ attr encoded (codes "id") (codes "id")
      ∷ [];
  children = compounddef_children;
}

abbrev pub listofallmembers_type_schema : Schema
listofallmembers_type_schema = record {
  shape = structured;
  attributes = [];
  children = child (codes "member") (codes "member") (objects Class.member_ref_type) ∷ [];
}

abbrev pub member_ref_type_schema : Schema
member_ref_type_schema = record {
  shape = structured;
  attributes =
      attr plain (codes "virt") (codes "virt")
      ∷ attr plain (codes "prot") (codes "prot")
      ∷ attr encoded (codes "refid") (codes "refid")
      ∷ attr encoded (codes "ambiguityscope") (codes "ambiguityscope")
      ∷ [];
  children =
      child (codes "scope") (codes "scope") text ∷ child (codes "name") (codes "name") text ∷ [];
}

abbrev pub compound_ref_type_schema : Schema
compound_ref_type_schema = record {
  shape = valued_mixed;
  attributes =
      attr plain (codes "virt") (codes "virt")
      ∷ attr plain (codes "prot") (codes "prot")
      ∷ attr encoded (codes "refid") (codes "refid")
      ∷ [];
  children = [];
}

abbrev pub reimplement_type_schema : Schema
reimplement_type_schema = record {
  shape = valued_mixed;
  attributes = attr encoded (codes "refid") (codes "refid") ∷ [];
  children = [];
}

abbrev pub inc_type_schema : Schema
inc_type_schema = record {
  shape = valued_mixed;
  attributes =
      attr plain (codes "local") (codes "local")
      ∷ attr encoded (codes "refid") (codes "refid")
      ∷ [];
  children = [];
}

abbrev pub ref_type_schema : Schema
ref_type_schema = record {
  shape = valued_mixed;
  attributes =
      attr plain (codes "prot") (codes "prot") ∷ attr encoded (codes "refid") (codes "refid") ∷ [];
  children = [];
}

abbrev pub ref_text_type_schema : Schema
ref_text_type_schema = record {
  shape = valued_mixed;
  attributes =
      attr encoded (codes "refid") (codes "refid")
      ∷ attr plain (codes "kindref") (codes "kindref")
      ∷ attr encoded (codes "external") (codes "external")
      ∷ [];
  children = [];
}
