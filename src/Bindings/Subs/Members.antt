-- ===== src/Bindings/Subs/Members.antt =====
-- The constructors of compound.py: sections, members and their parts.
use sdrportal.Prelude.{codes, [], ◌∷◌}
use sdrportal.Bindings.Constructors.{Sub, none_by_default, empty_by_default}

abbrev pub sectiondef_type_sub : Sub
sectiondef_type_sub = record {
  parameters =
      none_by_default (codes "kind")
      ∷ empty_by_default (codes "header")
      ∷ none_by_default (codes "description")
      ∷ none_by_default (codes "memberdef")
      ∷ [];
  passed = codes "kind" ∷ codes "header" ∷ codes "description" ∷ codes "memberdef" ∷ [];
}

abbrev pub memberdef_type_sub : Sub
memberdef_type_sub = record {
  parameters =
      none_by_default (codes "initonly")
      ∷ none_by_default (codes "kind")
      ∷ none_by_default (codes "volatile")
      ∷ none_by_default (codes "const")
      ∷ none_by_default (codes "raise_")
      ∷ none_by_default (codes "virt")
      ∷ none_by_default (codes "readable")
      ∷ none_by_default (codes "prot")
      ∷ none_by_default (codes "explicit")
      ∷ none_by_default (codes "new")
      ∷ none_by_default (codes "final")
      ∷ none_by_default (codes "writable")
      ∷ none_by_default (codes "add")
      ∷ none_by_default (codes "static")
      ∷ none_by_default (codes "remove")
      ∷ none_by_default (codes "sealed")
      ∷ none_by_default (codes "mutable")
      ∷ none_by_default (codes "gettable")
      ∷ none_by_default (codes "inline")
      ∷ none_by_default (codes "settable")
      ∷ none_by_default (codes "id")
      ∷ none_by_default (codes "templateparamlist")
      ∷ none_by_default (codes "type_")
      ∷ empty_by_default (codes "definition")
      ∷ empty_by_default (codes "argsstring")
      ∷ empty_by_default (codes "name")
      ∷ empty_by_default (codes "read")
      ∷ empty_by_default (codes "write")
      ∷ empty_by_default (codes "bitfield")
      ∷ none_by_default (codes "reimplements")
      ∷ none_by_default (codes "reimplementedby")
      ∷ none_by_default (codes "param")
      ∷ none_by_default (codes "enumvalue")
      ∷ none_by_default (codes "initializer")
      ∷ none_by_default (codes "exceptions")
      ∷ none_by_default (codes "briefdescription")
      ∷ none_by_default (codes "detaileddescription")
      ∷ none_by_default (codes "inbodydescription")
      ∷ none_by_default (codes "location")
      ∷ none_by_default (codes "references")
      ∷ none_by_default (codes "referencedby")
      ∷ [];
  passed =
      codes "initonly"
      ∷ codes "kind"
      ∷ codes "volatile"
      ∷ codes "const"
      ∷ codes "raise_"
      ∷ codes "virt"
      ∷ codes "readable"
      ∷ codes "prot"
      ∷ codes "explicit"
      ∷ codes "new"
      ∷ codes "final"
      ∷ codes "writable"
      ∷ codes "add"
      ∷ codes "static"
      ∷ codes "remove"
      ∷ codes "sealed"
      ∷ codes "mutable"
      ∷ codes "gettable"
      ∷ codes "inline"
      ∷ codes "settable"
      ∷ codes "id"
      ∷ codes "templateparamlist"
      ∷ codes "type_"
      ∷ codes "definition"
      ∷ codes "argsstring"
      ∷ codes "name"
      ∷ codes "read"
      ∷ codes "write"
      ∷ codes "bitfield"
      ∷ codes "reimplements"
      ∷ codes "reimplementedby"
      ∷ codes "param"
      ∷ codes "enumvalue"
      ∷ codes "initializer"
      ∷ codes "exceptions"
      ∷ codes "briefdescription"
      ∷ codes "detaileddescription"
      ∷ codes "inbodydescription"
      ∷ codes "location"
      ∷ codes "references"
      ∷ codes "referencedby"
      ∷ [];
}

abbrev pub enumvalue_type_sub : Sub
enumvalue_type_sub = record {
  parameters =
      none_by_default (codes "prot")
      ∷ none_by_default (codes "id")
      ∷ empty_by_default (codes "name")
      ∷ none_by_default (codes "initializer")
      ∷ none_by_default (codes "briefdescription")
      ∷ none_by_default (codes "detaileddescription")
      ∷ none_by_default (codes "mixedclass_")
      ∷ none_by_default (codes "content_")
      ∷ [];
  passed = codes "mixedclass_" ∷ codes "content_" ∷ [];
}

abbrev pub templateparamlist_type_sub : Sub
templateparamlist_type_sub = record {
  parameters = none_by_default (codes "param") ∷ [];
  passed = codes "param" ∷ [];
}

abbrev pub param_type_sub : Sub
param_type_sub = record {
  parameters =
      none_by_default (codes "type_")
      ∷ empty_by_default (codes "declname")
      ∷ empty_by_default (codes "defname")
      ∷ empty_by_default (codes "array")
      ∷ none_by_default (codes "defval")
      ∷ none_by_default (codes "briefdescription")
      ∷ [];
  passed =
      codes "type_"
      ∷ codes "declname"
      ∷ codes "defname"
      ∷ codes "array"
      ∷ codes "defval"
      ∷ codes "briefdescription"
      ∷ [];
}

abbrev pub linked_text_type_sub : Sub
linked_text_type_sub = record {
  parameters =
      none_by_default (codes "ref")
      ∷ none_by_default (codes "mixedclass_")
      ∷ none_by_default (codes "content_")
      ∷ [];
  passed = codes "mixedclass_" ∷ codes "content_" ∷ [];
}

abbrev pub reference_type_sub : Sub
reference_type_sub = record {
  parameters =
      none_by_default (codes "endline")
      ∷ none_by_default (codes "startline")
      ∷ none_by_default (codes "refid")
      ∷ none_by_default (codes "compoundref")
      ∷ empty_by_default (codes "valueOf_")
      ∷ none_by_default (codes "mixedclass_")
      ∷ none_by_default (codes "content_")
      ∷ [];
  passed = codes "mixedclass_" ∷ codes "content_" ∷ [];
}

abbrev pub location_type_sub : Sub
location_type_sub = record {
  parameters =
      none_by_default (codes "bodystart")
      ∷ none_by_default (codes "line")
      ∷ none_by_default (codes "bodyend")
      ∷ none_by_default (codes "bodyfile")
      ∷ none_by_default (codes "file")
      ∷ empty_by_default (codes "valueOf_")
      ∷ [];
  passed =
      codes "bodystart" ∷ codes "line" ∷ codes "bodyend" ∷ codes "bodyfile" ∷ codes "file" ∷ [];
}
