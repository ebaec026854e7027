-- ===== src/Bindings/Conform/Markup.antt =====
-- The classes of marked up text, and the classes in their contents.
use sdrportal.Prelude.{
  Text, none, some, List, [], ◌∷◌, text_eq, ◌≡◌, refl, sym, ◌∙◌, subst, Bool-cases, inl, inr,
}
use sdrportal.Describe.{Bits}
use sdrportal.Describe.Laws.{AreTexts}
use sdrportal.Bindings.Classes.{Class}
use sdrportal.Bindings.Schema.{
  ChildKind, complex, Child, Shape, structured, valued, mixed, valued_mixed, find_child,
}
use sdrportal.Bindings.Tables.{schema}
use sdrportal.Bindings.Value.{Fields, end, field, content}
use sdrportal.Bindings.Bits.{items_at}
use sdrportal.Bindings.Conform.{FieldKind, Kinds, listing, contents, declared, Matches}
use sdrportal.Bindings.Conform.Access.{kind_at}
use sdrportal.Bindings.Conform.Sound.{found_first, found_later}

-- The classes of marked up text.
abbrev pub IsMarkup : Shape → Type 0
IsMarkup structured = ⊥
IsMarkup valued = ⊥
IsMarkup _ = Unit

abbrev MarkupChild : ChildKind → Type 0
MarkupChild (complex d) = IsMarkup (schema d).shape
MarkupChild _ = Unit

abbrev AllMarkup : List Child → Type 0
AllMarkup [] = Unit
AllMarkup (c ∷ cs) = MarkupChild c.kind × AllMarkup cs

-- In a class with mixed content the objects in the content are marked up text again, and there is
-- no field `content`.
abbrev pub Closed : Shape → List Child → Kinds → Type 0
Closed mixed cs ds = (kind_at content ds ≡ none) × AllMarkup cs
Closed valued_mixed cs ds = (kind_at content ds ≡ none) × AllMarkup cs
Closed _ cs ds = Unit

pub schema-Closed : (c : Class) → Closed (schema c).shape (schema c).children (declared (schema c))
unfolding declared schema text_eq
schema-Closed Class.compound_ref_type = (refl, _)
schema-Closed Class.reimplement_type = (refl, _)
schema-Closed Class.inc_type = (refl, _)
schema-Closed Class.ref_type = (refl, _)
schema-Closed Class.ref_text_type = (refl, _)
schema-Closed Class.description_type = (refl, _)
schema-Closed Class.enumvalue_type = (refl, _)
schema-Closed Class.linked_text_type = (refl, _)
schema-Closed Class.highlight_type = (refl, _)
schema-Closed Class.reference_type = (refl, _)
schema-Closed Class.doc_sect1_type = (refl, _)
schema-Closed Class.doc_sect2_type = (refl, _)
schema-Closed Class.doc_sect3_type = (refl, _)
schema-Closed Class.doc_sect4_type = (refl, _)
schema-Closed Class.doc_internal_type = (refl, _)
schema-Closed Class.doc_internal_s1_type = (refl, _)
schema-Closed Class.doc_internal_s2_type = (refl, _)
schema-Closed Class.doc_internal_s3_type = (refl, _)
schema-Closed Class.doc_internal_s4_type = (refl, _)
schema-Closed Class.doc_title_type = (refl, _)
schema-Closed Class.doc_markup_type = (refl, _)
schema-Closed Class.doc_url_link = (refl, _)
schema-Closed Class.doc_anchor_type = (refl, _)
schema-Closed Class.doc_formula_type = (refl, _)
schema-Closed Class.doc_ref_text_type = (refl, _)
schema-Closed Class.doc_caption_type = (refl, _)
schema-Closed Class.doc_heading_type = (refl, _)
schema-Closed Class.doc_image_type = (refl, _)
schema-Closed Class.doc_dot_file_type = (refl, _)
schema-Closed Class.doc_toc_item_type = (refl, _)
schema-Closed Class.doc_param_name = (refl, _)
schema-Closed c = tt

-- The lists of a kind hold marked up text.
abbrev pub Speaks : FieldKind → Type 0
Speaks (contents cs) = AllMarkup cs
Speaks (listing d) = IsMarkup (schema d).shape
Speaks _ = ⊥

pub branch-IsMarkup :
    (n : Text) (cs : List Child) (c : Child) (d : Class)
    → AllMarkup cs
    → find_child n cs ≡ some c
    → c.kind ≡ complex d
    → IsMarkup (schema d).shape
unfolding find_child
branch-IsMarkup n [] c d all e k = absurd cc
branch-IsMarkup n (b ∷ cs) c d (first, all) e k = elim (Bool-cases (text_eq b.tag n)) [
  | inl same ↦
      subst MarkupChild k (subst (λ x. MarkupChild x.kind) (found_first n b c cs same e) first)
  | inr other ↦ branch-IsMarkup n cs c d all (found_later n b c cs other e) k
]

pub unspoken :
    (k : Text) (fs : Fields) (ds : Kinds)
    → Matches fs ds
    → kind_at k ds ≡ none
    → items_at k fs ≡ none
unfolding items_at Matches
unspoken k end ds m at = refl
unspoken k (field j v fs) [] m at = absurd m
unspoken k (field j v fs) ((i, μ) ∷ ds) (same, fit, m) at = elim (Bool-cases (text_eq i k)) [
  | inl e ↦ let first : kind_at k ((i, μ) ∷ ds) ≡ some μ = rw e refl in cc
  | inr e ↦
      let rest : kind_at k ((i, μ) ∷ ds) ≡ kind_at k ds = rw e refl in
      rw (same, e) (unspoken k fs ds m (sym rest ∙ at))
]

-- The items of a field are texts.
abbrev pub Spoken : Text → Fields → Type 0
Spoken k fs = (items : Bits) × (items_at k fs ≡ some items) × AreTexts items
