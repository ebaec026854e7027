-- ===== src/Bindings/Subs/Compounds.antt =====
-- The constructors of compound.py: compounds and references.
use sdrportal.Prelude.{codes, [], ◌∷◌}
use sdrportal.Bindings.Constructors.{Sub, none_by_default, empty_by_default}

abbrev pub doxygen_type_sub : Sub
doxygen_type_sub = record {
  parameters = none_by_default (codes "version") ∷ none_by_default (codes "compounddef") ∷ [];
  passed = codes "version" ∷ codes "compounddef" ∷ [];
}

abbrev pub compounddef_type_sub : Sub
compounddef_type_sub = record {
  parameters =
      none_by_default (codes "kind")
      ∷ none_by_default (codes "prot")
      ∷ none_by_default (codes "id")
      ∷ empty_by_default (codes "compoundname")
      ∷ empty_by_default (codes "title")
      ∷ none_by_default (codes "basecompoundref")
      ∷ none_by_default (codes "derivedcompoundref")
      ∷ none_by_default (codes "includes")
      ∷ none_by_default (codes "includedby")
      ∷ none_by_default (codes "incdepgraph")
      ∷ none_by_default (codes "invincdepgraph")
      ∷ none_by_default (codes "innerdir")
      ∷ none_by_default (codes "innerfile")
      ∷ none_by_default (codes "innerclass")
      ∷ none_by_default (codes "innernamespace")
      ∷ none_by_default (codes "innerpage")
      ∷ none_by_default (codes "innergroup")
      ∷ none_by_default (codes "templateparamlist")
      ∷ none_by_default (codes "sectiondef")
      ∷ none_by_default (codes "briefdescription")
      ∷ none_by_default (codes "detaileddescription")
      ∷ none_by_default (codes "inheritancegraph")
      ∷ none_by_default (codes "collaborationgraph")
      ∷ none_by_default (codes "programlisting")
      ∷ none_by_default (codes "location")
      ∷ none_by_default (codes "listofallmembers")
      ∷ [];
  passed =
      codes "kind"
      ∷ codes "prot"
      ∷ codes "id"
      ∷ codes "compoundname"
      ∷ codes "title"
      ∷ codes "basecompoundref"
      ∷ codes "derivedcompoundref"
      ∷ codes "includes"
      ∷ codes "includedby"
      ∷ codes "incdepgraph"
      ∷ codes "invincdepgraph"
      ∷ codes "innerdir"
      ∷ codes "innerfile"
      ∷ codes "innerclass"
      ∷ codes "innernamespace"
      ∷ codes "innerpage"
      ∷ codes "innergroup"
      ∷ codes "templateparamlist"
      ∷ codes "sectiondef"
      ∷ codes "briefdescription"
      ∷ codes "detaileddescription"
      ∷ codes "inheritancegraph"
      ∷ codes "collaborationgraph"
      ∷ codes "programlisting"
      ∷ codes "location"
      ∷ codes "listofallmembers"
      ∷ [];
}

abbrev pub listofallmembers_type_sub : Sub
listofallmembers_type_sub = record {
  parameters = none_by_default (codes "member") ∷ [];
  passed = codes "member" ∷ [];
}

abbrev pub member_ref_type_sub : Sub
member_ref_type_sub = record {
  parameters =
      none_by_default (codes "virt")
      ∷ none_by_default (codes "prot")
      ∷ none_by_default (codes "refid")
      ∷ none_by_default (codes "ambiguityscope")
      ∷ empty_by_default (codes "scope")
      ∷ empty_by_default (codes "name")
      ∷ [];
  passed =
      codes "virt"
      ∷ codes "prot"
      ∷ codes "refid"
      ∷ codes "ambiguityscope"
      ∷ codes "scope"
      ∷ codes "name"
      ∷ [];
}

abbrev pub compound_ref_type_sub : Sub
compound_ref_type_sub = record {
  parameters =
      none_by_default (codes "virt")
      ∷ none_by_default (codes "prot")
      ∷ none_by_default (codes "refid")
      ∷ empty_by_default (codes "valueOf_")
      ∷ none_by_default (codes "mixedclass_")
      ∷ none_by_default (codes "content_")
      ∷ [];
  passed = codes "mixedclass_" ∷ codes "content_" ∷ [];
}

abbrev pub reimplement_type_sub : Sub
reimplement_type_sub = record {
  parameters =
      none_by_default (codes "refid")
      ∷ empty_by_default (codes "valueOf_")
      ∷ none_by_default (codes "mixedclass_")
      ∷ none_by_default (codes "content_")
      ∷ [];
  passed = codes "mixedclass_" ∷ codes "content_" ∷ [];
}

abbrev pub inc_type_sub : Sub
inc_type_sub = record {
  parameters =
      none_by_default (codes "local")
      ∷ none_by_default (codes "refid")
      ∷ empty_by_default (codes "valueOf_")
      ∷ none_by_default (codes "mixedclass_")
      ∷ none_by_default (codes "content_")
      ∷ [];
  passed = codes "mixedclass_" ∷ codes "content_" ∷ [];
}

abbrev pub ref_type_sub : Sub
ref_type_sub = record {
  parameters =
      none_by_default (codes "prot")
      ∷ none_by_default (codes "refid")
      ∷ empty_by_default (codes "valueOf_")
      ∷ none_by_default (codes "mixedclass_")
      ∷ none_by_default (codes "content_")
      ∷ [];
  passed = codes "mixedclass_" ∷ codes "content_" ∷ [];
}

abbrev pub ref_text_type_sub : Sub
ref_text_type_sub = record {
  parameters =
      none_by_default (codes "refid")
      ∷ none_by_default (codes "kindref")
      ∷ none_by_default (codes "external")
      ∷ empty_by_default (codes "valueOf_")
      ∷ none_by_default (codes "mixedclass_")
      ∷ none_by_default (codes "content_")
      ∷ [];
  passed = codes "mixedclass_" ∷ codes "content_" ∷ [];
}
