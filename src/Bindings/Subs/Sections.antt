-- ===== src/Bindings/Subs/Sections.antt =====
-- The constructors of compound.py: descriptions and their sections.
use sdrportal.Prelude.{codes, [], ◌∷◌}
use sdrportal.Bindings.Constructors.{Sub, none_by_default, empty_by_default}

abbrev pub description_type_sub : Sub
description_type_sub = record {
  parameters =
      empty_by_default (codes "title")
      ∷ none_by_default (codes "para")
      ∷ none_by_default (codes "sect1")
      ∷ none_by_default (codes "internal")
      ∷ none_by_default (codes "mixedclass_")
      ∷ none_by_default (codes "content_")
      ∷ [];
  passed = codes "mixedclass_" ∷ codes "content_" ∷ [];
}

abbrev pub doc_sect1_type_sub : Sub
doc_sect1_type_sub = record {
  parameters =
      none_by_default (codes "id")
      ∷ empty_by_default (codes "title")
      ∷ none_by_default (codes "para")
      ∷ none_by_default (codes "sect2")
      ∷ none_by_default (codes "internal")
      ∷ none_by_default (codes "mixedclass_")
      ∷ none_by_default (codes "content_")
      ∷ [];
  passed = codes "mixedclass_" ∷ codes "content_" ∷ [];
}

abbrev pub doc_sect2_type_sub : Sub
doc_sect2_type_sub = record {
  parameters =
      none_by_default (codes "id")
      ∷ empty_by_default (codes "title")
      ∷ none_by_default (codes "para")
      ∷ none_by_default (codes "sect3")
      ∷ none_by_default (codes "internal")
      ∷ none_by_default (codes "mixedclass_")
      ∷ none_by_default (codes "content_")
      ∷ [];
  passed = codes "mixedclass_" ∷ codes "content_" ∷ [];
}

abbrev pub doc_sect3_type_sub : Sub
doc_sect3_type_sub = record {
  parameters =
      none_by_default (codes "id")
      ∷ empty_by_default (codes "title")
      ∷ none_by_default (codes "para")
      ∷ none_by_default (codes "sect4")
      ∷ none_by_default (codes "internal")
      ∷ none_by_default (codes "mixedclass_")
      ∷ none_by_default (codes "content_")
      ∷ [];
  passed = codes "mixedclass_" ∷ codes "content_" ∷ [];
}

abbrev pub doc_sect4_type_sub : Sub
doc_sect4_type_sub = record {
  parameters =
      none_by_default (codes "id")
      ∷ empty_by_default (codes "title")
      ∷ none_by_default (codes "para")
      ∷ none_by_default (codes "internal")
      ∷ none_by_default (codes "mixedclass_")
      ∷ none_by_default (codes "content_")
      ∷ [];
  passed = codes "mixedclass_" ∷ codes "content_" ∷ [];
}

abbrev pub doc_internal_type_sub : Sub
doc_internal_type_sub = record {
  parameters =
      none_by_default (codes "para")
      ∷ none_by_default (codes "sect1")
      ∷ none_by_default (codes "mixedclass_")
      ∷ none_by_default (codes "content_")
      ∷ [];
  passed = codes "mixedclass_" ∷ codes "content_" ∷ [];
}

abbrev pub doc_internal_s1_type_sub : Sub
doc_internal_s1_type_sub = record {
  parameters =
      none_by_default (codes "para")
      ∷ none_by_default (codes "sect2")
      ∷ none_by_default (codes "mixedclass_")
      ∷ none_by_default (codes "content_")
      ∷ [];
  passed = codes "mixedclass_" ∷ codes "content_" ∷ [];
}

abbrev pub doc_internal_s2_type_sub : Sub
doc_internal_s2_type_sub = record {
  parameters =
      none_by_default (codes "para")
      ∷ none_by_default (codes "sect3")
      ∷ none_by_default (codes "mixedclass_")
      ∷ none_by_default (codes "content_")
      ∷ [];
  passed = codes "mixedclass_" ∷ codes "content_" ∷ [];
}

abbrev pub doc_internal_s3_type_sub : Sub
doc_internal_s3_type_sub = record {
  parameters =
      none_by_default (codes "para")
      ∷ none_by_default (codes "sect3")
      ∷ none_by_default (codes "mixedclass_")
      ∷ none_by_default (codes "content_")
      ∷ [];
  passed = codes "mixedclass_" ∷ codes "content_" ∷ [];
}

abbrev pub doc_internal_s4_type_sub : Sub
doc_internal_s4_type_sub = record {
  parameters =
      none_by_default (codes "para")
      ∷ none_by_default (codes "mixedclass_")
      ∷ none_by_default (codes "content_")
      ∷ [];
  passed = codes "mixedclass_" ∷ codes "content_" ∷ [];
}

abbrev pub doc_para_type_sub : Sub
doc_para_type_sub = record {
  parameters = none_by_default (codes "char") ∷ empty_by_default (codes "valueOf_") ∷ [];
  passed = codes "char" ∷ [];
}
