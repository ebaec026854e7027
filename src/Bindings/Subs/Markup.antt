-- ===== src/Bindings/Subs/Markup.antt =====
-- The constructors of compound.py: markup.
use sdrportal.Prelude.{codes, [], ◌∷◌}
use sdrportal.Bindings.Constructors.{Sub, none_by_default, empty_by_default}

abbrev pub doc_url_link_sub : Sub
doc_url_link_sub = record {
  parameters =
      none_by_default (codes "url")
      ∷ empty_by_default (codes "valueOf_")
      ∷ none_by_default (codes "mixedclass_")
      ∷ none_by_default (codes "content_")
      ∷ [];
  passed = codes "mixedclass_" ∷ codes "content_" ∷ [];
}

abbrev pub doc_anchor_type_sub : Sub
doc_anchor_type_sub = record {
  parameters =
      none_by_default (codes "id")
      ∷ empty_by_default (codes "valueOf_")
      ∷ none_by_default (codes "mixedclass_")
      ∷ none_by_default (codes "content_")
      ∷ [];
  passed = codes "mixedclass_" ∷ codes "content_" ∷ [];
}

abbrev pub doc_formula_type_sub : Sub
doc_formula_type_sub = record {
  parameters =
      none_by_default (codes "id")
      ∷ empty_by_default (codes "valueOf_")
      ∷ none_by_default (codes "mixedclass_")
      ∷ none_by_default (codes "content_")
      ∷ [];
  passed = codes "mixedclass_" ∷ codes "content_" ∷ [];
}

abbrev pub doc_index_entry_type_sub : Sub
doc_index_entry_type_sub = record {
  parameters = empty_by_default (codes "primaryie") ∷ empty_by_default (codes "secondaryie") ∷ [];
  passed = codes "primaryie" ∷ codes "secondaryie" ∷ [];
}

abbrev pub doc_ref_text_type_sub : Sub
doc_ref_text_type_sub = record {
  parameters =
      none_by_default (codes "refid")
      ∷ none_by_default (codes "kindref")
      ∷ none_by_default (codes "external")
      ∷ empty_by_default (codes "valueOf_")
      ∷ none_by_default (codes "mixedclass_")
      ∷ none_by_default (codes "content_")
      ∷ [];
  passed = codes "mixedclass_" ∷ codes "content_" ∷ [];
}

abbrev pub doc_heading_type_sub : Sub
doc_heading_type_sub = record {
  parameters =
      none_by_default (codes "level")
      ∷ empty_by_default (codes "valueOf_")
      ∷ none_by_default (codes "mixedclass_")
      ∷ none_by_default (codes "content_")
      ∷ [];
  passed = codes "mixedclass_" ∷ codes "content_" ∷ [];
}

abbrev pub doc_image_type_sub : Sub
doc_image_type_sub = record {
  parameters =
      none_by_default (codes "width")
      ∷ none_by_default (codes "type_")
      ∷ none_by_default (codes "name")
      ∷ none_by_default (codes "height")
      ∷ empty_by_default (codes "valueOf_")
      ∷ none_by_default (codes "mixedclass_")
      ∷ none_by_default (codes "content_")
      ∷ [];
  passed = codes "mixedclass_" ∷ codes "content_" ∷ [];
}

abbrev pub doc_dot_file_type_sub : Sub
doc_dot_file_type_sub = record {
  parameters =
      none_by_default (codes "name")
      ∷ empty_by_default (codes "valueOf_")
      ∷ none_by_default (codes "mixedclass_")
      ∷ none_by_default (codes "content_")
      ∷ [];
  passed = codes "mixedclass_" ∷ codes "content_" ∷ [];
}

abbrev pub doc_toc_item_type_sub : Sub
doc_toc_item_type_sub = record {
  parameters =
      none_by_default (codes "id")
      ∷ empty_by_default (codes "valueOf_")
      ∷ none_by_default (codes "mixedclass_")
      ∷ none_by_default (codes "content_")
      ∷ [];
  passed = codes "mixedclass_" ∷ codes "content_" ∷ [];
}

abbrev pub doc_toc_list_type_sub : Sub
doc_toc_list_type_sub = record {
  parameters = none_by_default (codes "tocitem") ∷ [];
  passed = codes "tocitem" ∷ [];
}

abbrev pub doc_language_type_sub : Sub
doc_language_type_sub = record {
  parameters = none_by_default (codes "langid") ∷ none_by_default (codes "para") ∷ [];
  passed = codes "langid" ∷ codes "para" ∷ [];
}

abbrev pub doc_copy_type_sub : Sub
doc_copy_type_sub = record {
  parameters =
      none_by_default (codes "link")
      ∷ none_by_default (codes "para")
      ∷ none_by_default (codes "sect1")
      ∷ none_by_default (codes "internal")
      ∷ [];
  passed = codes "link" ∷ codes "para" ∷ codes "sect1" ∷ codes "internal" ∷ [];
}

abbrev pub doc_char_type_sub : Sub
doc_char_type_sub = record {
  parameters = none_by_default (codes "char") ∷ empty_by_default (codes "valueOf_") ∷ [];
  passed = codes "char" ∷ [];
}
