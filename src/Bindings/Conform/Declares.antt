-- ===== src/Bindings/Conform/Declares.antt =====
-- The fields that `build` writes, beside those that `__init__` gives to a new object.
use sdrportal.Prelude.{Text, some, List, [], ◌∷◌, text_eq, ◌≡◌, refl}
use sdrportal.Bindings.Classes.{Class}
use sdrportal.Bindings.Schema.{
  Attr, attr, ChildKind, text, texts, simple, object, objects, title, complex, listed, Child, Shape,
  structured, valued, mixed, valued_mixed, paragraph, Schema,
}
use sdrportal.Bindings.Tables.{schema}
use sdrportal.Bindings.Value.{value_of, content_, content}
use sdrportal.Bindings.Conform.{
  Kinds, attr_kind, a_text, many_texts, maybe, many, titled, listing, contents, declared,
}
use sdrportal.Bindings.Conform.Access.{kind_at}

abbrev pub AttrsDeclared : List Attr → Kinds → Type 0
AttrsDeclared [] ds = Unit
AttrsDeclared (attr kind key k ∷ rest) ds =
    (kind_at k ds ≡ some (attr_kind kind)) × AttrsDeclared rest ds

abbrev pub ChildDeclared : ChildKind → Text → List Child → Kinds → Type 0
ChildDeclared text k cs ds = kind_at k ds ≡ some a_text
ChildDeclared texts k cs ds = kind_at k ds ≡ some many_texts
ChildDeclared (object c) k cs ds = kind_at k ds ≡ some (maybe c)
ChildDeclared (objects c) k cs ds = kind_at k ds ≡ some (many c)
ChildDeclared (title c) k cs ds = kind_at k ds ≡ some (titled c)
ChildDeclared simple k cs ds = kind_at content_ ds ≡ some (contents cs)
ChildDeclared (complex c) k cs ds = kind_at content_ ds ≡ some (contents cs)
ChildDeclared (listed c) k cs ds = kind_at content ds ≡ some (listing c)

abbrev pub ChildrenDeclared : List Child → List Child → Kinds → Type 0
ChildrenDeclared all [] ds = Unit
ChildrenDeclared all (c ∷ cs) ds = ChildDeclared c.kind c.field all ds × ChildrenDeclared all cs ds

abbrev pub ShapeDeclared : Shape → List Child → Kinds → Type 0
ShapeDeclared structured cs ds = Unit
ShapeDeclared valued cs ds = kind_at value_of ds ≡ some a_text
ShapeDeclared mixed cs ds = kind_at content_ ds ≡ some (contents cs)
ShapeDeclared valued_mixed cs ds =
    (kind_at content_ ds ≡ some (contents cs)) × (kind_at value_of ds ≡ some a_text)
ShapeDeclared paragraph cs ds =
    (kind_at content_ ds ≡ some (contents []))
    × (kind_at content ds ≡ some (listing Class.doc_ref_text_type))
    × (kind_at value_of ds ≡ some a_text)

-- Every field that `build` writes is declared, with a kind that takes what it writes.
abbrev pub Declares : Schema → Type 0
Declares s =
    AttrsDeclared s.attributes (declared s)
    × ChildrenDeclared s.children s.children (declared s)
    × ShapeDeclared s.shape s.children (declared s)

pub schema-Declares : (c : Class) → Declares (schema c)
unfolding declared schema text_eq
schema-Declares Class.doxygen_type = ((refl, tt), (refl, tt), tt)
schema-Declares Class.compounddef_type = (
  (refl, (refl, (refl, tt))),
  (
    refl,
    (
      refl,
      (
        refl,
        (
          refl,
          (
            refl,
            (
              refl,
              (
                refl,
                (
                  refl,
                  (
                    refl,
                    (
                      refl,
                      (
                        refl,
                        (
                          refl,
                          (
                            refl,
                            (
                              refl,
                              (
                                refl,
                                (refl, (refl, (refl, (refl, (refl, (refl, (refl, (refl, tt)))))))),
                              ),
                            ),
                          ),
                        ),
                      ),
                    ),
                  ),
                ),
              ),
            ),
          ),
        ),
      ),
    ),
  ),
  tt,
)
schema-Declares Class.listofallmembers_type = (tt, (refl, tt), tt)
schema-Declares Class.member_ref_type = ((refl, (refl, (refl, (refl, tt)))), (refl, (refl, tt)), tt)
schema-Declares Class.scope = (tt, tt, refl)
schema-Declares Class.name = (tt, tt, refl)
schema-Declares Class.compound_ref_type = ((refl, (refl, (refl, tt))), tt, (refl, refl))
schema-Declares Class.reimplement_type = ((refl, tt), tt, (refl, refl))
schema-Declares Class.inc_type = ((refl, (refl, tt)), tt, (refl, refl))
schema-Declares Class.ref_type = ((refl, (refl, tt)), tt, (refl, refl))
schema-Declares Class.ref_text_type = ((refl, (refl, (refl, tt))), tt, (refl, refl))
schema-Declares Class.sectiondef_type = ((refl, tt), (refl, (refl, (refl, tt))), tt)
schema-Declares Class.memberdef_type = (
  (
    refl,
    (
      refl,
      (
        refl,
        (
          refl,
          (
            refl,
            (
              refl,
              (
                refl,
                (
                  refl,
                  (
                    refl,
                    (
                      refl,
                      (
                        refl,
                        (
                          refl,
                          (
                            refl,
                            (refl, (refl, (refl, (refl, (refl, (refl, (refl, (refl, tt)))))))),
                          ),
                        ),
                      ),
                    ),
                  ),
                ),
              ),
            ),
          ),
        ),
      ),
    ),
  ),
  (
    refl,
    (
      refl,
      (
        refl,
        (
          refl,
          (
            refl,
            (
              refl,
              (
                refl,
                (
                  refl,
                  (
                    refl,
                    (
                      refl,
                      (
                        refl,
                        (refl, (refl, (refl, (refl, (refl, (refl, (refl, (refl, (refl, tt))))))))),
                      ),
                    ),
                  ),
                ),
              ),
            ),
          ),
        ),
      ),
    ),
  ),
  tt,
)
schema-Declares Class.definition = (tt, tt, refl)
schema-Declares Class.argsstring = (tt, tt, refl)
schema-Declares Class.read = (tt, tt, refl)
schema-Declares Class.write = (tt, tt, refl)
schema-Declares Class.bitfield = (tt, tt, refl)
schema-Declares Class.description_type = (tt, (refl, (refl, (refl, (refl, tt)))), refl)
schema-Declares Class.enumvalue_type =
    ((refl, (refl, tt)), (refl, (refl, (refl, (refl, tt)))), refl)
schema-Declares Class.templateparamlist_type = (tt, (refl, tt), tt)
schema-Declares Class.param_type = (tt, (refl, (refl, (refl, (refl, (refl, (refl, tt)))))), tt)
schema-Declares Class.declname = (tt, tt, refl)
schema-Declares Class.defname = (tt, tt, refl)
schema-Declares Class.array = (tt, tt, refl)
schema-Declares Class.linked_text_type = (tt, (refl, tt), refl)
schema-Declares Class.graph_type = (tt, (refl, tt), tt)
schema-Declares Class.node_type = ((refl, tt), (refl, (refl, (refl, tt))), tt)
schema-Declares Class.label = (tt, tt, refl)
schema-Declares Class.childnode_type = ((refl, (refl, tt)), (refl, tt), tt)
schema-Declares Class.edgelabel = (tt, tt, refl)
schema-Declares Class.link_type = ((refl, (refl, tt)), tt, refl)
schema-Declares Class.listing_type = (tt, (refl, tt), tt)
schema-Declares Class.codeline_type = ((refl, (refl, (refl, (refl, tt)))), (refl, tt), tt)
schema-Declares Class.highlight_type = ((refl, tt), (refl, (refl, tt)), refl)
schema-Declares Class.sp = (tt, tt, refl)
schema-Declares Class.reference_type = ((refl, (refl, (refl, (refl, tt)))), tt, (refl, refl))
schema-Declares Class.location_type = ((refl, (refl, (refl, (refl, (refl, tt))))), tt, refl)
schema-Declares Class.doc_sect1_type = ((refl, tt), (refl, (refl, (refl, (refl, tt)))), refl)
schema-Declares Class.doc_sect2_type = ((refl, tt), (refl, (refl, (refl, (refl, tt)))), refl)
schema-Declares Class.doc_sect3_type = ((refl, tt), (refl, (refl, (refl, (refl, tt)))), refl)
schema-Declares Class.doc_sect4_type = ((refl, tt), (refl, (refl, (refl, tt))), refl)
schema-Declares Class.doc_internal_type = (tt, (refl, (refl, tt)), refl)
schema-Declares Class.doc_internal_s1_type = (tt, (refl, (refl, tt)), refl)
schema-Declares Class.doc_internal_s2_type = (tt, (refl, (refl, tt)), refl)
schema-Declares Class.doc_internal_s3_type = (tt, (refl, (refl, tt)), refl)
schema-Declares Class.doc_internal_s4_type = (tt, (refl, tt), refl)
schema-Declares Class.doc_title_type = (tt, tt, (refl, refl))
schema-Declares Class.doc_para_type = (tt, (refl, (refl, (refl, tt))), (refl, refl, refl))
schema-Declares Class.doc_markup_type = (tt, tt, (refl, refl))
schema-Declares Class.doc_url_link = ((refl, tt), tt, (refl, refl))
schema-Declares Class.doc_anchor_type = ((refl, tt), tt, (refl, refl))
schema-Declares Class.doc_formula_type = ((refl, tt), tt, (refl, refl))
schema-Declares Class.doc_index_entry_type = (tt, (refl, (refl, tt)), tt)
schema-Declares Class.doc_list_type = (tt, (refl, tt), tt)
schema-Declares Class.doc_list_item_type = (tt, (refl, tt), tt)
schema-Declares Class.doc_simple_sect_type = ((refl, tt), (refl, (refl, tt)), tt)
schema-Declares Class.doc_var_list_entry_type = (tt, (refl, tt), tt)
schema-Declares Class.doc_variable_list_type = (tt, tt, refl)
schema-Declares Class.doc_ref_text_type = ((refl, (refl, (refl, tt))), tt, (refl, refl))
schema-Declares Class.doc_table_type = ((refl, (refl, tt)), (refl, (refl, tt)), tt)
schema-Declares Class.doc_row_type = (tt, (refl, tt), tt)
schema-Declares Class.doc_entry_type = ((refl, tt), (refl, tt), tt)
schema-Declares Class.doc_caption_type = (tt, tt, (refl, refl))
schema-Declares Class.doc_heading_type = ((refl, tt), tt, (refl, refl))
schema-Declares Class.doc_image_type = ((refl, (refl, (refl, (refl, tt)))), tt, (refl, refl))
schema-Declares Class.doc_dot_file_type = ((refl, tt), tt, (refl, refl))
schema-Declares Class.doc_toc_item_type = ((refl, tt), tt, (refl, refl))
schema-Declares Class.doc_toc_list_type = (tt, (refl, tt), tt)
schema-Declares Class.doc_language_type = ((refl, tt), (refl, tt), tt)
schema-Declares Class.doc_param_list_type = ((refl, tt), (refl, tt), tt)
schema-Declares Class.doc_param_list_item = (tt, (refl, (refl, tt)), tt)
schema-Declares Class.doc_param_name_list = (tt, (refl, tt), tt)
schema-Declares Class.doc_param_name = ((refl, tt), (refl, tt), refl)
schema-Declares Class.doc_xref_sect_type = ((refl, tt), (refl, (refl, tt)), tt)
schema-Declares Class.doc_copy_type = ((refl, tt), (refl, (refl, (refl, tt))), tt)
schema-Declares Class.doc_char_type = ((refl, tt), tt, refl)
schema-Declares Class.doc_empty_type = (tt, tt, refl)
