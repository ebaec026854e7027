-- ===== src/Bindings/Names.antt =====
-- The names of the classes of compoundsuper.py in Python, as `exportLiteral` writes them.
use sdrportal.Prelude.{Text, codes}
use sdrportal.Bindings.Classes.{Class}

unfoldable pub class_name : Class → Text
class_name Class.doxygen_type = codes "DoxygenType"
class_name Class.compounddef_type = codes "compounddefType"
class_name Class.listofallmembers_type = codes "listofallmembersType"
class_name Class.member_ref_type = codes "memberRefType"
class_name Class.scope = codes "scope"
class_name Class.name = codes "name"
class_name Class.compound_ref_type = codes "compoundRefType"
class_name Class.reimplement_type = codes "reimplementType"
class_name Class.inc_type = codes "incType"
class_name Class.ref_type = codes "refType"
class_name Class.ref_text_type = codes "refTextType"
class_name Class.sectiondef_type = codes "sectiondefType"
class_name Class.memberdef_type = codes "memberdefType"
class_name Class.definition = codes "definition"
class_name Class.argsstring = codes "argsstring"
class_name Class.read = codes "read"
class_name Class.write = codes "write"
class_name Class.bitfield = codes "bitfield"
class_name Class.description_type = codes "descriptionType"
class_name Class.enumvalue_type = codes "enumvalueType"
class_name Class.templateparamlist_type = codes "templateparamlistType"
class_name Class.param_type = codes "paramType"
class_name Class.declname = codes "declname"
class_name Class.defname = codes "defname"
class_name Class.array = codes "array"
class_name Class.linked_text_type = codes "linkedTextType"
class_name Class.graph_type = codes "graphType"
class_name Class.node_type = codes "nodeType"
class_name Class.label = codes "label"
class_name Class.childnode_type = codes "childnodeType"
class_name Class.edgelabel = codes "edgelabel"
class_name Class.link_type = codes "linkType"
class_name Class.listing_type = codes "listingType"
class_name Class.codeline_type = codes "codelineType"
class_name Class.highlight_type = codes "highlightType"
class_name Class.sp = codes "sp"
class_name Class.reference_type = codes "referenceType"
class_name Class.location_type = codes "locationType"
class_name Class.doc_sect1_type = codes "docSect1Type"
class_name Class.doc_sect2_type = codes "docSect2Type"
class_name Class.doc_sect3_type = codes "docSect3Type"
class_name Class.doc_sect4_type = codes "docSect4Type"
class_name Class.doc_internal_type = codes "docInternalType"
class_name Class.doc_internal_s1_type = codes "docInternalS1Type"
class_name Class.doc_internal_s2_type = codes "docInternalS2Type"
class_name Class.doc_internal_s3_type = codes "docInternalS3Type"
class_name Class.doc_internal_s4_type = codes "docInternalS4Type"
class_name Class.doc_title_type = codes "docTitleType"
class_name Class.doc_para_type = codes "docParaType"
class_name Class.doc_markup_type = codes "docMarkupType"
class_name Class.doc_url_link = codes "docURLLink"
class_name Class.doc_anchor_type = codes "docAnchorType"
class_name Class.doc_formula_type = codes "docFormulaType"
class_name Class.doc_index_entry_type = codes "docIndexEntryType"
class_name Class.doc_list_type = codes "docListType"
class_name Class.doc_list_item_type = codes "docListItemType"
class_name Class.doc_simple_sect_type = codes "docSimpleSectType"
class_name Class.doc_var_list_entry_type = codes "docVarListEntryType"
class_name Class.doc_variable_list_type = codes "docVariableListType"
class_name Class.doc_ref_text_type = codes "docRefTextType"
class_name Class.doc_table_type = codes "docTableType"
class_name Class.doc_row_type = codes "docRowType"
class_name Class.doc_entry_type = codes "docEntryType"
class_name Class.doc_caption_type = codes "docCaptionType"
class_name Class.doc_heading_type = codes "docHeadingType"
class_name Class.doc_image_type = codes "docImageType"
class_name Class.doc_dot_file_type = codes "docDotFileType"
class_name Class.doc_toc_item_type = codes "docTocItemType"
class_name Class.doc_toc_list_type = codes "docTocListType"
class_name Class.doc_language_type = codes "docLanguageType"
class_name Class.doc_param_list_type = codes "docParamListType"
class_name Class.doc_param_list_item = codes "docParamListItem"
class_name Class.doc_param_name_list = codes "docParamNameList"
class_name Class.doc_param_name = codes "docParamName"
class_name Class.doc_xref_sect_type = codes "docXRefSectType"
class_name Class.doc_copy_type = codes "docCopyType"
class_name Class.doc_char_type = codes "docCharType"
class_name Class.doc_empty_type = codes "docEmptyType"
