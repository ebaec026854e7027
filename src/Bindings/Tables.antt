-- ===== src/Bindings/Tables.antt =====
-- The schema of each class.
pub mod Compounds
pub mod Members
pub mod Values
pub mod Graphs
pub mod Sections
pub mod Markup
pub mod Lists
use sdrportal.Bindings.Classes.{Class}
use sdrportal.Bindings.Schema.{Schema}
use sdrportal.Bindings.Tables.Compounds.{
  doxygen_type_schema, compounddef_type_schema, listofallmembers_type_schema,
  member_ref_type_schema, compound_ref_type_schema, reimplement_type_schema, inc_type_schema,
  ref_type_schema, ref_text_type_schema,
}
use sdrportal.Bindings.Tables.Members.{
  sectiondef_type_schema, memberdef_type_schema, enumvalue_type_schema,
  templateparamlist_type_schema, param_type_schema, linked_text_type_schema, reference_type_schema,
  location_type_schema,
}
use sdrportal.Bindings.Tables.Values.{
  scope_schema, name_schema, definition_schema, argsstring_schema, read_schema, write_schema,
  bitfield_schema, declname_schema, defname_schema, array_schema, label_schema, edgelabel_schema,
  sp_schema,
}
use sdrportal.Bindings.Tables.Graphs.{
  graph_type_schema, node_type_schema, childnode_type_schema, link_type_schema, listing_type_schema,
  codeline_type_schema, highlight_type_schema,
}
use sdrportal.Bindings.Tables.Sections.{
  description_type_schema, doc_sect1_type_schema, doc_sect2_type_schema, doc_sect3_type_schema,
  doc_sect4_type_schema, doc_internal_type_schema, doc_internal_s1_type_schema,
  doc_internal_s2_type_schema, doc_internal_s3_type_schema, doc_internal_s4_type_schema,
  doc_title_type_schema, doc_para_type_schema,
}
use sdrportal.Bindings.Tables.Markup.{
  doc_markup_type_schema, doc_url_link_schema, doc_anchor_type_schema, doc_formula_type_schema,
  doc_index_entry_type_schema, doc_ref_text_type_schema, doc_heading_type_schema,
  doc_image_type_schema, doc_dot_file_type_schema, doc_toc_item_type_schema,
  doc_toc_list_type_schema, doc_language_type_schema, doc_char_type_schema, doc_empty_type_schema,
  doc_copy_type_schema,
}
use sdrportal.Bindings.Tables.Lists.{
  doc_list_type_schema, doc_list_item_type_schema, doc_simple_sect_type_schema,
  doc_var_list_entry_type_schema, doc_variable_list_type_schema, doc_table_type_schema,
  doc_row_type_schema, doc_entry_type_schema, doc_caption_type_schema, doc_param_list_type_schema,
  doc_param_list_item_schema, doc_param_name_list_schema, doc_param_name_schema,
  doc_xref_sect_type_schema,
}

unfoldable pub schema : Class → Schema
schema Class.doxygen_type = doxygen_type_schema
schema Class.compounddef_type = compounddef_type_schema
schema Class.listofallmembers_type = listofallmembers_type_schema
schema Class.member_ref_type = member_ref_type_schema
schema Class.scope = scope_schema
schema Class.name = name_schema
schema Class.compound_ref_type = compound_ref_type_schema
schema Class.reimplement_type = reimplement_type_schema
schema Class.inc_type = inc_type_schema
schema Class.ref_type = ref_type_schema
schema Class.ref_text_type = ref_text_type_schema
schema Class.sectiondef_type = sectiondef_type_schema
schema Class.memberdef_type = memberdef_type_schema
schema Class.definition = definition_schema
schema Class.argsstring = argsstring_schema
schema Class.read = read_schema
schema Class.write = write_schema
schema Class.bitfield = bitfield_schema
schema Class.description_type = description_type_schema
schema Class.enumvalue_type = enumvalue_type_schema
schema Class.templateparamlist_type = templateparamlist_type_schema
schema Class.param_type = param_type_schema
schema Class.declname = declname_schema
schema Class.defname = defname_schema
schema Class.array = array_schema
schema Class.linked_text_type = linked_text_type_schema
schema Class.graph_type = graph_type_schema
schema Class.node_type = node_type_schema
schema Class.label = label_schema
schema Class.childnode_type = childnode_type_schema
schema Class.edgelabel = edgelabel_schema
schema Class.link_type = link_type_schema
schema Class.listing_type = listing_type_schema
schema Class.codeline_type = codeline_type_schema
schema Class.highlight_type = highlight_type_schema
schema Class.sp = sp_schema
schema Class.reference_type = reference_type_schema
schema Class.location_type = location_type_schema
schema Class.doc_sect1_type = doc_sect1_type_schema
schema Class.doc_sect2_type = doc_sect2_type_schema
schema Class.doc_sect3_type = doc_sect3_type_schema
schema Class.doc_sect4_type = doc_sect4_type_schema
schema Class.doc_internal_type = doc_internal_type_schema
schema Class.doc_internal_s1_type = doc_internal_s1_type_schema
schema Class.doc_internal_s2_type = doc_internal_s2_type_schema
schema Class.doc_internal_s3_type = doc_internal_s3_type_schema
schema Class.doc_internal_s4_type = doc_internal_s4_type_schema
schema Class.doc_title_type = doc_title_type_schema
schema Class.doc_para_type = doc_para_type_schema
schema Class.doc_markup_type = doc_markup_type_schema
schema Class.doc_url_link = doc_url_link_schema
schema Class.doc_anchor_type = doc_anchor_type_schema
schema Class.doc_formula_type = doc_formula_type_schema
schema Class.doc_index_entry_type = doc_index_entry_type_schema
schema Class.doc_list_type = doc_list_type_schema
schema Class.doc_list_item_type = doc_list_item_type_schema
schema Class.doc_simple_sect_type = doc_simple_sect_type_schema
schema Class.doc_var_list_entry_type = doc_var_list_entry_type_schema
schema Class.doc_variable_list_type = doc_variable_list_type_schema
schema Class.doc_ref_text_type = doc_ref_text_type_schema
schema Class.doc_table_type = doc_table_type_schema
schema Class.doc_row_type = doc_row_type_schema
schema Class.doc_entry_type = doc_entry_type_schema
schema Class.doc_caption_type = doc_caption_type_schema
schema Class.doc_heading_type = doc_heading_type_schema
schema Class.doc_image_type = doc_image_type_schema
schema Class.doc_dot_file_type = doc_dot_file_type_schema
schema Class.doc_toc_item_type = doc_toc_item_type_schema
schema Class.doc_toc_list_type = doc_toc_list_type_schema
schema Class.doc_language_type = doc_language_type_schema
schema Class.doc_param_list_type = doc_param_list_type_schema
schema Class.doc_param_list_item = doc_param_list_item_schema
schema Class.doc_param_name_list = doc_param_name_list_schema
schema Class.doc_param_name = doc_param_name_schema
schema Class.doc_xref_sect_type = doc_xref_sect_type_schema
schema Class.doc_copy_type = doc_copy_type_schema
schema Class.doc_char_type = doc_char_type_schema
schema Class.doc_empty_type = doc_empty_type_schema
