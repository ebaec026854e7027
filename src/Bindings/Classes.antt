-- ===== src/Bindings/Classes.antt =====
-- The classes of gr-sdrp/docs/doxygen/doxyxml/generated/compoundsuper.py.

pub data Class : Type 0 where
  doxygen_type compounddef_type listofallmembers_type member_ref_type scope name : Class
  compound_ref_type reimplement_type inc_type ref_type ref_text_type sectiondef_type : Class
  memberdef_type definition argsstring read write bitfield description_type enumvalue_type : Class
  templateparamlist_type param_type declname defname array linked_text_type graph_type : Class
  node_type label childnode_type edgelabel link_type listing_type codeline_type : Class
  highlight_type sp reference_type location_type doc_sect1_type doc_sect2_type : Class
  doc_sect3_type doc_sect4_type doc_internal_type doc_internal_s1_type doc_internal_s2_type : Class
  doc_internal_s3_type doc_internal_s4_type doc_title_type doc_para_type doc_markup_type : Class
  doc_url_link doc_anchor_type doc_formula_type doc_index_entry_type doc_list_type : Class
  doc_list_item_type doc_simple_sect_type doc_var_list_entry_type doc_variable_list_type : Class
  doc_ref_text_type doc_table_type doc_row_type doc_entry_type doc_caption_type : Class
  doc_heading_type doc_image_type doc_dot_file_type doc_toc_item_type doc_toc_list_type : Class
  doc_language_type doc_param_list_type doc_param_list_item doc_param_name_list : Class
  doc_param_name doc_xref_sect_type doc_copy_type doc_char_type doc_empty_type : Class
