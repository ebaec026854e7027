-- ===== src/Bindings/Tables/Lists.antt =====
-- Classes of compoundsuper.py: lists, tables and parameter lists.
use sdrportal.Prelude.{codes, [], ◌∷◌}
use sdrportal.Bindings.Classes.{Class}
use sdrportal.Bindings.Schema.{
  Schema, attr, child, complex, encoded, integer, mixed, object, objects, plain, structured, texts,
  valued, valued_mixed,
}

abbrev pub doc_list_type_schema : Schema
doc_list_type_schema = record {
  shape = structured;
  attributes = [];
  children = child (codes "listitem") (codes "listitem") (objects Class.doc_list_item_type) ∷ [];
}

abbrev pub doc_list_item_type_schema : Schema
doc_list_item_type_schema = record {
  shape = structured;
  attributes = [];
  children = child (codes "para") (codes "para") (objects Class.doc_para_type) ∷ [];
}

abbrev pub doc_simple_sect_type_schema : Schema
doc_simple_sect_type_schema = record {
  shape = structured;
  attributes = attr plain (codes "kind") (codes "kind") ∷ [];
  children =
      child (codes "title") (codes "title") (object Class.doc_title_type)
      ∷ child (codes "para") (codes "para") (objects Class.doc_para_type)
      ∷ [];
}

abbrev pub doc_var_list_entry_type_schema : Schema
doc_var_list_entry_type_schema = record {
  shape = structured;
  attributes = [];
  children = child (codes "term") (codes "term") (object Class.doc_title_type) ∷ [];
}

abbrev pub doc_variable_list_type_schema : Schema
doc_variable_list_type_schema = record { shape = valued; attributes = []; children = [] }

abbrev pub doc_table_type_schema : Schema
doc_table_type_schema = record {
  shape = structured;
  attributes =
      attr integer (codes "rows") (codes "rows") ∷ attr integer (codes "cols") (codes "cols") ∷ [];
  children =
      child (codes "row") (codes "row") (objects Class.doc_row_type)
      ∷ child (codes "caption") (codes "caption") (object Class.doc_caption_type)
      ∷ [];
}

abbrev pub doc_row_type_schema : Schema
doc_row_type_schema = record {
  shape = structured;
  attributes = [];
  children = child (codes "entry") (codes "entry") (objects Class.doc_entry_type) ∷ [];
}

abbrev pub doc_entry_type_schema : Schema
doc_entry_type_schema = record {
  shape = structured;
  attributes = attr plain (codes "thead") (codes "thead") ∷ [];
  children = child (codes "para") (codes "para") (objects Class.doc_para_type) ∷ [];
}

abbrev pub doc_caption_type_schema : Schema
doc_caption_type_schema = record { shape = valued_mixed; attributes = []; children = [] }

abbrev pub doc_param_list_type_schema : Schema
doc_param_list_type_schema = record {
  shape = structured;
  attributes = attr plain (codes "kind") (codes "kind") ∷ [];
  children =
      child (codes "parameteritem") (codes "parameteritem") (objects Class.doc_param_list_item)
      ∷ [];
}

abbrev pub doc_param_list_item_schema : Schema
doc_param_list_item_schema = record {
  shape = structured;
  attributes = [];
  children =
      child (codes "parameternamelist") (codes "parameternamelist")
        (objects Class.doc_param_name_list)
      ∷ child (codes "parameterdescription") (codes "parameterdescription")
          (object Class.description_type)
      ∷ [];
}

abbrev pub doc_param_name_list_schema : Schema
doc_param_name_list_schema = record {
  shape = structured;
  attributes = [];
  children =
      child (codes "parametername") (codes "parametername") (objects Class.doc_param_name) ∷ [];
}

abbrev pub doc_param_name_schema : Schema
doc_param_name_schema = record {
  shape = mixed;
  attributes = attr plain (codes "direction") (codes "direction") ∷ [];
  children = child (codes "ref") (codes "ref") (complex Class.doc_ref_text_type) ∷ [];
}

abbrev pub doc_xref_sect_type_schema : Schema
doc_xref_sect_type_schema = record {
  shape = structured;
  attributes = attr encoded (codes "id") (codes "id") ∷ [];
  children =
      child (codes "xreftitle") (codes "xreftitle") texts
      ∷ child (codes "xrefdescription") (codes "xrefdescription") (object Class.description_type)
      ∷ [];
}
