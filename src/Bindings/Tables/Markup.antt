-- ===== src/Bindings/Tables/Markup.antt =====
-- Classes of compoundsuper.py: markup inside a description.
use sdrportal.Prelude.{codes, [], ◌∷◌}
use sdrportal.Bindings.Classes.{Class}
use sdrportal.Bindings.Schema.{
  Schema, attr, child, encoded, integer, object, objects, plain, structured, text, valued,
  valued_mixed,
}

abbrev pub doc_markup_type_schema : Schema
doc_markup_type_schema = record { shape = valued_mixed; attributes = []; children = [] }

abbrev pub doc_url_link_schema : Schema
doc_url_link_schema = record {
  shape = valued_mixed;
  attributes = attr encoded (codes "url") (codes "url") ∷ [];
  children = [];
}

abbrev pub doc_anchor_type_schema : Schema
doc_anchor_type_schema = record {
  shape = valued_mixed;
  attributes = attr encoded (codes "id") (codes "id") ∷ [];
  children = [];
}

abbrev pub doc_formula_type_schema : Schema
doc_formula_type_schema = record {
  shape = valued_mixed;
  attributes = attr encoded (codes "id") (codes "id") ∷ [];
  children = [];
}

abbrev pub doc_index_entry_type_schema : Schema
doc_index_entry_type_schema = record {
  shape = structured;
  attributes = [];
  children =
      child (codes "primaryie") (codes "primaryie") text
      ∷ child (codes "secondaryie") (codes "secondaryie") text
      ∷ [];
}

abbrev pub doc_ref_text_type_schema : Schema
doc_ref_text_type_schema = record {
  shape = valued_mixed;
  attributes =
      attr encoded (codes "refid") (codes "refid")
      ∷ attr plain (codes "kindref") (codes "kindref")
      ∷ attr encoded (codes "external") (codes "external")
      ∷ [];
  children = [];
}

abbrev pub doc_heading_type_schema : Schema
doc_heading_type_schema = record {
  shape = valued_mixed;
  attributes = attr integer (codes "level") (codes "level") ∷ [];
  children = [];
}

abbrev pub doc_image_type_schema : Schema
doc_image_type_schema = record {
  shape = valued_mixed;
  attributes =
      attr encoded (codes "width") (codes "width")
      ∷ attr plain (codes "type") (codes "type_")
      ∷ attr encoded (codes "name") (codes "name")
      ∷ attr encoded (codes "height") (codes "height")
      ∷ [];
  children = [];
}

abbrev pub doc_dot_file_type_schema : Schema
doc_dot_file_type_schema = record {
  shape = valued_mixed;
  attributes = attr encoded (codes "name") (codes "name") ∷ [];
  children = [];
}

abbrev pub doc_toc_item_type_schema : Schema
doc_toc_item_type_schema = record {
  shape = valued_mixed;
  attributes = attr encoded (codes "id") (codes "id") ∷ [];
  children = [];
}

abbrev pub doc_toc_list_type_schema : Schema
doc_toc_list_type_schema = record {
  shape = structured;
  attributes = [];
  children = child (codes "tocitem") (codes "tocitem") (objects Class.doc_toc_item_type) ∷ [];
}

abbrev pub doc_language_type_schema : Schema
doc_language_type_schema = record {
  shape = structured;
  attributes = attr encoded (codes "langid") (codes "langid") ∷ [];
  children = child (codes "para") (codes "para") (objects Class.doc_para_type) ∷ [];
}

abbrev pub doc_char_type_schema : Schema
doc_char_type_schema = record {
  shape = valued;
  attributes = attr plain (codes "char") (codes "char") ∷ [];
  children = [];
}

abbrev pub doc_empty_type_schema : Schema
doc_empty_type_schema = record { shape = valued; attributes = []; children = [] }

abbrev pub doc_copy_type_schema : Schema
doc_copy_type_schema = record {
  shape = structured;
  attributes = attr encoded (codes "link") (codes "link") ∷ [];
  children =
      child (codes "para") (codes "para") (objects Class.doc_para_type)
      ∷ child (codes "sect1") (codes "sect1") (objects Class.doc_sect1_type)
      ∷ child (codes "internal") (codes "internal") (object Class.doc_internal_type)
      ∷ [];
}
