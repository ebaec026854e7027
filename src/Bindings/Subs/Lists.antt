-- ===== src/Bindings/Subs/Lists.antt =====
-- The constructors of compound.py: lists and tables.
use sdrportal.Prelude.{codes, [], ◌∷◌}
use sdrportal.Bindings.Constructors.{Sub, none_by_default}

abbrev pub doc_list_type_sub : Sub
doc_list_type_sub = record {
  parameters = none_by_default (codes "listitem") ∷ [];
  passed = codes "listitem" ∷ [];
}

abbrev pub doc_list_item_type_sub : Sub
doc_list_item_type_sub = record {
  parameters = none_by_default (codes "para") ∷ [];
  passed = codes "para" ∷ [];
}

abbrev pub doc_simple_sect_type_sub : Sub
doc_simple_sect_type_sub = record {
  parameters =
      none_by_default (codes "kind")
      ∷ none_by_default (codes "title")
      ∷ none_by_default (codes "para")
      ∷ [];
  passed = codes "kind" ∷ codes "title" ∷ codes "para" ∷ [];
}

abbrev pub doc_var_list_entry_type_sub : Sub
doc_var_list_entry_type_sub = record {
  parameters = none_by_default (codes "term") ∷ [];
  passed = codes "term" ∷ [];
}

abbrev pub doc_table_type_sub : Sub
doc_table_type_sub = record {
  parameters =
      none_by_default (codes "rows")
      ∷ none_by_default (codes "cols")
      ∷ none_by_default (codes "row")
      ∷ none_by_default (codes "caption")
      ∷ [];
  passed = codes "rows" ∷ codes "cols" ∷ codes "row" ∷ codes "caption" ∷ [];
}

abbrev pub doc_row_type_sub : Sub
doc_row_type_sub = record {
  parameters = none_by_default (codes "entry") ∷ [];
  passed = codes "entry" ∷ [];
}

abbrev pub doc_entry_type_sub : Sub
doc_entry_type_sub = record {
  parameters = none_by_default (codes "thead") ∷ none_by_default (codes "para") ∷ [];
  passed = codes "thead" ∷ codes "para" ∷ [];
}

abbrev pub doc_param_list_type_sub : Sub
doc_param_list_type_sub = record {
  parameters = none_by_default (codes "kind") ∷ none_by_default (codes "parameteritem") ∷ [];
  passed = codes "kind" ∷ codes "parameteritem" ∷ [];
}

abbrev pub doc_param_list_item_sub : Sub
doc_param_list_item_sub = record {
  parameters =
      none_by_default (codes "parameternamelist")
      ∷ none_by_default (codes "parameterdescription")
      ∷ [];
  passed = codes "parameternamelist" ∷ codes "parameterdescription" ∷ [];
}

abbrev pub doc_param_name_list_sub : Sub
doc_param_name_list_sub = record {
  parameters = none_by_default (codes "parametername") ∷ [];
  passed = codes "parametername" ∷ [];
}

abbrev pub doc_param_name_sub : Sub
doc_param_name_sub = record {
  parameters =
      none_by_default (codes "direction")
      ∷ none_by_default (codes "ref")
      ∷ none_by_default (codes "mixedclass_")
      ∷ none_by_default (codes "content_")
      ∷ [];
  passed = codes "mixedclass_" ∷ codes "content_" ∷ [];
}

abbrev pub doc_xref_sect_type_sub : Sub
doc_xref_sect_type_sub = record {
  parameters =
      none_by_default (codes "id")
      ∷ none_by_default (codes "xreftitle")
      ∷ none_by_default (codes "xrefdescription")
      ∷ [];
  passed = codes "id" ∷ codes "xreftitle" ∷ codes "xrefdescription" ∷ [];
}
