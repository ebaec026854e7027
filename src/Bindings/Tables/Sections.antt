-- ===== src/Bindings/Tables/Sections.antt =====
-- Classes of compoundsuper.py: descriptions, their sections and paragraphs.
use sdrportal.Prelude.{codes, [], ◌∷◌}
use sdrportal.Bindings.Classes.{Class}
use sdrportal.Bindings.Schema.{
  Schema, attr, child, complex, encoded, listed, mixed, objects, paragraph, valued_mixed,
}

abbrev pub description_type_schema : Schema
description_type_schema = record {
  shape = mixed;
  attributes = [];
  children =
      child (codes "title") (codes "title") (complex Class.doc_title_type)
      ∷ child (codes "para") (codes "para") (complex Class.doc_para_type)
      ∷ child (codes "sect1") (codes "sect1") (complex Class.doc_sect1_type)
      ∷ child (codes "internal") (codes "internal") (complex Class.doc_internal_type)
      ∷ [];
}

abbrev pub doc_sect1_type_schema : Schema
doc_sect1_type_schema = record {
  shape = mixed;
  attributes = attr encoded (codes "id") (codes "id") ∷ [];
  children =
      child (codes "title") (codes "title") (complex Class.doc_title_type)
      ∷ child (codes "para") (codes "para") (complex Class.doc_para_type)
      ∷ child (codes "sect2") (codes "sect2") (complex Class.doc_sect2_type)
      ∷ child (codes "internal") (codes "internal") (complex Class.doc_internal_s1_type)
      ∷ [];
}

abbrev pub doc_sect2_type_schema : Schema
doc_sect2_type_schema = record {
  shape = mixed;
  attributes = attr encoded (codes "id") (codes "id") ∷ [];
  children =
      child (codes "title") (codes "title") (complex Class.doc_title_type)
      ∷ child (codes "para") (codes "para") (complex Class.doc_para_type)
      ∷ child (codes "sect3") (codes "sect3") (complex Class.doc_sect3_type)
      ∷ child (codes "internal") (codes "internal") (complex Class.doc_internal_s2_type)
      ∷ [];
}

abbrev pub doc_sect3_type_schema : Schema
doc_sect3_type_schema = record {
  shape = mixed;
  attributes = attr encoded (codes "id") (codes "id") ∷ [];
  children =
      child (codes "title") (codes "title") (complex Class.doc_title_type)
      ∷ child (codes "para") (codes "para") (complex Class.doc_para_type)
      ∷ child (codes "sect4") (codes "sect4") (complex Class.doc_sect4_type)
      ∷ child (codes "internal") (codes "internal") (complex Class.doc_internal_s3_type)
      ∷ [];
}

abbrev pub doc_sect4_type_schema : Schema
doc_sect4_type_schema = record {
  shape = mixed;
  attributes = attr encoded (codes "id") (codes "id") ∷ [];
  children =
      child (codes "title") (codes "title") (complex Class.doc_title_type)
      ∷ child (codes "para") (codes "para") (complex Class.doc_para_type)
      ∷ child (codes "internal") (codes "internal") (complex Class.doc_internal_s4_type)
      ∷ [];
}

abbrev pub doc_internal_type_schema : Schema
doc_internal_type_schema = record {
  shape = mixed;
  attributes = [];
  children =
      child (codes "para") (codes "para") (complex Class.doc_para_type)
      ∷ child (codes "sect1") (codes "sect1") (complex Class.doc_sect1_type)
      ∷ [];
}

abbrev pub doc_internal_s1_type_schema : Schema
doc_internal_s1_type_schema = record {
  shape = mixed;
  attributes = [];
  children =
      child (codes "para") (codes "para") (complex Class.doc_para_type)
      ∷ child (codes "sect2") (codes "sect2") (complex Class.doc_sect2_type)
      ∷ [];
}

abbrev pub doc_internal_s2_type_schema : Schema
doc_internal_s2_type_schema = record {
  shape = mixed;
  attributes = [];
  children =
      child (codes "para") (codes "para") (complex Class.doc_para_type)
      ∷ child (codes "sect3") (codes "sect3") (complex Class.doc_sect3_type)
      ∷ [];
}

abbrev pub doc_internal_s3_type_schema : Schema
doc_internal_s3_type_schema = record {
  shape = mixed;
  attributes = [];
  children =
      child (codes "para") (codes "para") (complex Class.doc_para_type)
      ∷ child (codes "sect3") (codes "sect3") (complex Class.doc_sect4_type)
      ∷ [];
}

abbrev pub doc_internal_s4_type_schema : Schema
doc_internal_s4_type_schema = record {
  shape = mixed;
  attributes = [];
  children = child (codes "para") (codes "para") (complex Class.doc_para_type) ∷ [];
}

abbrev pub doc_title_type_schema : Schema
doc_title_type_schema = record { shape = valued_mixed; attributes = []; children = [] }

abbrev pub doc_para_type_schema : Schema
doc_para_type_schema = record {
  shape = paragraph;
  attributes = [];
  children =
      child (codes "ref") (codes "content") (listed Class.doc_ref_text_type)
      ∷ child (codes "parameterlist") (codes "parameterlist") (objects Class.doc_param_list_type)
      ∷ child (codes "simplesect") (codes "simplesects") (objects Class.doc_simple_sect_type)
      ∷ [];
}
