-- ===== src/Bindings/Subs.antt =====
-- The constructor that compound.py gives to each class, if it gives one.
pub mod Compounds
pub mod Members
pub mod Graphs
pub mod Sections
pub mod Markup
pub mod Lists
use sdrportal.Prelude.{Option, none, some}
use sdrportal.Bindings.Classes.{Class}
use sdrportal.Bindings.Constructors.{Sub}
use sdrportal.Bindings.Subs.Compounds.{
  doxygen_type_sub, compounddef_type_sub, listofallmembers_type_sub, member_ref_type_sub,
  compound_ref_type_sub, reimplement_type_sub, inc_type_sub, ref_type_sub, ref_text_type_sub,
}
use sdrportal.Bindings.Subs.Members.{
  sectiondef_type_sub, memberdef_type_sub, enumvalue_type_sub, templateparamlist_type_sub,
  param_type_sub, linked_text_type_sub, reference_type_sub, location_type_sub,
}
use sdrportal.Bindings.Subs.Graphs.{
  graph_type_sub, node_type_sub, childnode_type_sub, link_type_sub, listing_type_sub,
  codeline_type_sub, highlight_type_sub,
}
use sdrportal.Bindings.Subs.Sections.{
  description_type_sub, doc_sect1_type_sub, doc_sect2_type_sub, doc_sect3_type_sub,
  doc_sect4_type_sub, doc_internal_type_sub, doc_internal_s1_type_sub, doc_internal_s2_type_sub,
  doc_internal_s3_type_sub, doc_internal_s4_type_sub, doc_para_type_sub,
}
use sdrportal.Bindings.Subs.Markup.{
  doc_url_link_sub, doc_anchor_type_sub, doc_formula_type_sub, doc_index_entry_type_sub,
  doc_ref_text_type_sub, doc_heading_type_sub, doc_image_type_sub, doc_dot_file_type_sub,
  doc_toc_item_type_sub, doc_toc_list_type_sub, doc_language_type_sub, doc_copy_type_sub,
  doc_char_type_sub,
}
use sdrportal.Bindings.Subs.Lists.{
  doc_list_type_sub, doc_list_item_type_sub, doc_simple_sect_type_sub, doc_var_list_entry_type_sub,
  doc_table_type_sub, doc_row_type_sub, doc_entry_type_sub, doc_param_list_type_sub,
  doc_param_list_item_sub, doc_param_name_list_sub, doc_param_name_sub, doc_xref_sect_type_sub,
}

-- `T.subclass`
unfoldable pub subclass : Class → Option Sub
subclass Class.doxygen_type = some doxygen_type_sub
subclass Class.compounddef_type = some compounddef_type_sub
subclass Class.listofallmembers_type = some listofallmembers_type_sub
subclass Class.member_ref_type = some member_ref_type_sub
subclass Class.compound_ref_type = some compound_ref_type_sub
subclass Class.reimplement_type = some reimplement_type_sub
subclass Class.inc_type = some inc_type_sub
subclass Class.ref_type = some ref_type_sub
subclass Class.ref_text_type = some ref_text_type_sub
subclass Class.sectiondef_type = some sectiondef_type_sub
subclass Class.memberdef_type = some memberdef_type_sub
subclass Class.description_type = some description_type_sub
subclass Class.enumvalue_type = some enumvalue_type_sub
subclass Class.templateparamlist_type = some templateparamlist_type_sub
subclass Class.param_type = some param_type_sub
subclass Class.linked_text_type = some linked_text_type_sub
subclass Class.graph_type = some graph_type_sub
subclass Class.node_type = some node_type_sub
subclass Class.childnode_type = some childnode_type_sub
subclass Class.link_type = some link_type_sub
subclass Class.listing_type = some listing_type_sub
subclass Class.codeline_type = some codeline_type_sub
subclass Class.highlight_type = some highlight_type_sub
subclass Class.reference_type = some reference_type_sub
subclass Class.location_type = some location_type_sub
subclass Class.doc_sect1_type = some doc_sect1_type_sub
subclass Class.doc_sect2_type = some doc_sect2_type_sub
subclass Class.doc_sect3_type = some doc_sect3_type_sub
subclass Class.doc_sect4_type = some doc_sect4_type_sub
subclass Class.doc_internal_type = some doc_internal_type_sub
subclass Class.doc_internal_s1_type = some doc_internal_s1_type_sub
subclass Class.doc_internal_s2_type = some doc_internal_s2_type_sub
subclass Class.doc_internal_s3_type = some doc_internal_s3_type_sub
subclass Class.doc_internal_s4_type = some doc_internal_s4_type_sub
subclass Class.doc_para_type = some doc_para_type_sub
subclass Class.doc_url_link = some doc_url_link_sub
subclass Class.doc_anchor_type = some doc_anchor_type_sub
subclass Class.doc_formula_type = some doc_formula_type_sub
subclass Class.doc_index_entry_type = some doc_index_entry_type_sub
subclass Class.doc_list_type = some doc_list_type_sub
subclass Class.doc_list_item_type = some doc_list_item_type_sub
subclass Class.doc_simple_sect_type = some doc_simple_sect_type_sub
subclass Class.doc_var_list_entry_type = some doc_var_list_entry_type_sub
subclass Class.doc_ref_text_type = some doc_ref_text_type_sub
subclass Class.doc_table_type = some doc_table_type_sub
subclass Class.doc_row_type = some doc_row_type_sub
subclass Class.doc_entry_type = some doc_entry_type_sub
subclass Class.doc_heading_type = some doc_heading_type_sub
subclass Class.doc_image_type = some doc_image_type_sub
subclass Class.doc_dot_file_type = some doc_dot_file_type_sub
subclass Class.doc_toc_item_type = some doc_toc_item_type_sub
subclass Class.doc_toc_list_type = some doc_toc_list_type_sub
subclass Class.doc_language_type = some doc_language_type_sub
subclass Class.doc_param_list_type = some doc_param_list_type_sub
subclass Class.doc_param_list_item = some doc_param_list_item_sub
subclass Class.doc_param_name_list = some doc_param_name_list_sub
subclass Class.doc_param_name = some doc_param_name_sub
subclass Class.doc_xref_sect_type = some doc_xref_sect_type_sub
subclass Class.doc_copy_type = some doc_copy_type_sub
subclass Class.doc_char_type = some doc_char_type_sub
subclass _ = none
