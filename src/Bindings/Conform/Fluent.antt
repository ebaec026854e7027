-- ===== src/Bindings/Conform/Fluent.antt =====
-- The text of a description, and the document that it was built from.
use sdrportal.Prelude.{
  Text, codes, Option, none, some, List, [], ◌∷◌, ◌++◌, append_assoc, Bool, true, false, text_eq,
  if◌then◌else◌, ◌≡◌, refl, sym, ap, ◌∙◌, Bool-cases, inl, inr,
}
use sdrportal.Exc.{ok}
use sdrportal.Dom
use sdrportal.Dom.{Attrs, Node, element, comment, cdata, Nodes, nil, cons, get, local_name}
use sdrportal.Index.Build.{concat_values}
use sdrportal.Describe.{Bit, description}
use sdrportal.Str.{strip}
use sdrportal.Describe.Laws.{flat, flat_all}
use sdrportal.Bindings.Classes.{Class}
use sdrportal.Bindings.Schema.{
  AttrKind, Attr, attr, Child, Shape, structured, valued, mixed, valued_mixed, paragraph,
  find_child,
}
use sdrportal.Bindings.Tables.{schema}
use sdrportal.Bindings.Value.{Value, instance_of, Fields, content_, content, initial, set_field}
use sdrportal.Bindings.Bits.{bit_of, bits_of, items_at, object_bit}
use sdrportal.Bindings.Build.{
  set_attr, attr_value, build_attributes, build_child, build_children, build,
}
use sdrportal.Bindings.Conform.{FieldKind, listing, contents, Kinds, declared, Matches}
use sdrportal.Bindings.Conform.Access.{kind_at}
use sdrportal.Bindings.Conform.Markup.{IsMarkup, Closed, schema-Closed, Speaks, Spoken, unspoken}
use sdrportal.Bindings.Conform.Described.{field-Speaks, description-build}
use sdrportal.Bindings.Conform.Unliteral.{undeclared}
use sdrportal.Bindings.Conform.Declares.{ShapeDeclared, schema-Declares}
use sdrportal.Bindings.Conform.Outcome.{Outcome-ok}
use sdrportal.Bindings.Conform.Sound.{children-Outcome, new-Outcome}
use sdrportal.Bindings.Conform.Heard.{heard, heard_items, set_field-other, bind-ok}
use sdrportal.Bindings.Conform.Marked.{key, Fluent, schema-Adds, marked_node, marked}
use sdrportal.Bindings.Conform.Placed.{text_heard, unchanged, cdata_heard, markup_adds, found_heard}

-- An object says what its content says.
object_says :
    (s : Shape) (cs : List Child) (ds : Kinds) (fs : Fields) (b : Option Bit)
    → IsMarkup s
    → ShapeDeclared s cs ds
    → Closed s cs ds
    → Matches fs ds
    → ((k : Text) (κ : FieldKind) → kind_at k ds ≡ some κ → Speaks κ → Spoken k fs)
    → flat (object_bit none (items_at content fs) (items_at content_ fs) b) ≡ heard (key s) fs
unfolding flat schema
object_says structured cs ds fs b mk de cl m spoken = absurd mk
object_says valued cs ds fs b mk de cl m spoken = absurd mk
object_says mixed cs ds fs b mk de (un, all) m spoken =
    let (items, e, speaks) = spoken content_ (contents cs) de all in
    let lacks = unspoken content fs ds m un in rw (lacks, e) refl
object_says valued_mixed cs ds fs b mk (de, dv) (un, all) m spoken =
    let (items, e, speaks) = spoken content_ (contents cs) de all in
    let lacks = unspoken content fs ds m un in rw (lacks, e) refl
object_says paragraph cs ds fs b mk (de, dl, dv) cl m spoken =
    let (items, e, speaks) = spoken content (listing Class.doc_ref_text_type) dl tt in rw e refl

object_heard :
    (d : Class) (fs : Fields)
    → Matches fs (declared (schema d))
    → Fluent d
    → flat (bit_of (instance_of d fs)) ≡ heard (key (schema d).shape) fs
unfolding bit_of
object_heard d fs m (mk, un) =
    let nameless = undeclared (codes "name") fs (declared (schema d)) m un in
    rw nameless (
      object_says (schema d).shape (schema d).children (declared (schema d)) fs _ mk
        (schema-Declares d).2 (schema-Closed d) m (field-Speaks fs (declared (schema d)) m))

-- No attribute is stored in the field.
abbrev quiet : Text → List Attr → Bool
quiet k [] = true
quiet k (attr kind name j ∷ rest) = if text_eq j k then false else quiet k rest

schema-quiet : (c : Class) → quiet (key (schema c).shape) (schema c).attributes ≡ true
unfolding schema text_eq
schema-quiet Class.doxygen_type = refl
schema-quiet c = refl

initial_silent : (c : Class) → heard (key (schema c).shape) (initial (schema c)) ≡ []
unfolding schema text_eq initial items_at bits_of flat_all
initial_silent Class.doxygen_type = refl
initial_silent c = refl

set_attr-heard :
    (k j : Text) (kind : AttrKind) (v : Option Text) (fs gs : Fields)
    → text_eq j k ≡ false
    → set_attr kind j v fs ≡ ok gs
    → heard k gs ≡ heard k fs
set_attr-heard k j kind none fs gs other e = let same : fs ≡ gs = cc in ap (heard k) (sym same)
set_attr-heard k j kind (some v) fs gs other e =
    let (w, e1, e2) = bind-ok (attr_value kind v) _ gs e in
    let same : set_field j w fs ≡ gs = cc in
    ap (heard k) (sym same) ∙ ap heard_items (set_field-other k j w fs other)

attributes_heard :
    (k : Text) (ats : List Attr) (given : Attrs) (fs gs : Fields)
    → quiet k ats ≡ true
    → build_attributes ats given fs ≡ ok gs
    → heard k gs ≡ heard k fs
unfolding build_attributes
attributes_heard k [] given fs gs q e = let same : fs ≡ gs = cc in ap (heard k) (sym same)
attributes_heard k (attr kind name j ∷ rest) given fs gs q e =
    let (fs1, e1, e2) = bind-ok (set_attr kind j (get name given) fs) _ gs e in
    elim (Bool-cases (text_eq j k)) [
      | inl here ↦ let loud : quiet k (attr kind name j ∷ rest) ≡ false = rw here refl in absurd cc
      | inr other ↦
          let silent : quiet k (attr kind name j ∷ rest) ≡ quiet k rest = rw other refl in
          attributes_heard k rest given fs1 gs (sym silent ∙ q) e2
          ∙ set_attr-heard k j kind (get name given) fs fs1 other e1
    ]

heard-initial :
    (d : Class) (ats : Attrs) (fs : Fields)
    → build_attributes (schema d).attributes ats (initial (schema d)) ≡ ok fs
    → heard (key (schema d).shape) fs ≡ []
heard-initial d ats fs e =
    attributes_heard (key (schema d).shape) (schema d).attributes ats (initial (schema d)) fs
      (schema-quiet d) e
    ∙ initial_silent d

built_heard :
    (d : Class) (ats : Attrs) (cs : Nodes) (v : Value)
    → Fluent d
    → ((hs ks : Fields)
        → build_children d cs hs ≡ ok ks
        → heard (key (schema d).shape) ks ≡ heard (key (schema d).shape) hs ++ marked d cs)
    → build d ats cs ≡ ok v
    → flat (bit_of v) ≡ marked d cs
unfolding build
built_heard d ats cs v fl nodes made =
    let (hs, e1, e') =
      bind-ok (build_attributes (schema d).attributes ats (initial (schema d))) _ v made in
    let (ks, e2, e3) = bind-ok (build_children d cs hs) _ v e' in
    let m = Outcome-ok (children-Outcome d cs hs (Outcome-ok (new-Outcome d ats) e1)) e2 in
    let same : instance_of d ks ≡ v = cc in
    ap (λ x. flat (bit_of x)) (sym same)
    ∙ object_heard d ks m fl
    ∙ nodes hs ks e2
    ∙ ap (λ x. x ++ marked d cs) (heard-initial d ats hs e1)

mutual
  unfolding build build_child build_children marked marked_node

  node_heard :
      (c : Class) (n : Node) (fs gs : Fields)
      → IsMarkup (schema c).shape
      → build_child c n fs ≡ ok gs
      → heard (key (schema c).shape) gs ≡ heard (key (schema c).shape) fs ++ marked_node c n
  node_heard c (element n ats cs) fs gs mk e =
      found_heard (local_name n) (schema c).shape (schema c).children
        (find_child (local_name n) (schema c).children) _ (concat_values [] cs) (λ d. marked d cs)
        fs gs mk (markup_adds (schema c).shape (schema c).children mk (schema-Adds c)) refl
        (λ d v fl made. built_heard d ats cs v fl (λ hs ks. nodes_heard d cs hs ks fl.0) made) e
  node_heard c (Dom.text t) fs gs mk e = text_heard (schema c).shape t fs gs mk e
  node_heard c (cdata t) fs gs mk e = cdata_heard (schema c).shape t fs gs mk e
  node_heard c (comment t) fs gs mk e = unchanged (key (schema c).shape) fs gs e

  nodes_heard :
      (c : Class) (ns : Nodes) (fs gs : Fields)
      → IsMarkup (schema c).shape
      → build_children c ns fs ≡ ok gs
      → heard (key (schema c).shape) gs ≡ heard (key (schema c).shape) fs ++ marked c ns
  nodes_heard c nil fs gs mk e = unchanged (key (schema c).shape) fs gs e
  nodes_heard c (cons n ns) fs gs mk e =
      let (fs1, e1, e2) = bind-ok (build_child c n fs) _ gs e in
      nodes_heard c ns fs1 gs mk e2
      ∙ ap (λ x. x ++ marked c ns) (node_heard c n fs fs1 mk e1)
      ∙ append_assoc (heard (key (schema c).shape) fs) (marked_node c n) (marked c ns)

flat-build :
    (c : Class) (ats : Attrs) (ns : Nodes) (v : Value)
    → Fluent c
    → build c ats ns ≡ ok v
    → flat (bit_of v) ≡ marked c ns
flat-build c ats ns v fl made =
    built_heard c ats ns v fl (λ hs ks. nodes_heard c ns hs ks fl.0) made

-- `description` of what `build` of a class with mixed content and no field `name`, as that of a
-- description, gives, if it gives an object, is the marked up text of the element's children in the
-- document, stripped of the white space around it.
pub description-marked :
    (c : Class) (ats : Attrs) (ns : Nodes) (v : Value)
    → Fluent c
    → build c ats ns ≡ ok v
    → description (some (bit_of v)) ≡ ok (some (strip (marked c ns)))
description-marked c ats ns v fl made =
    description-build c ats ns v fl.0 made
    ∙ ap (λ t. ok (some (strip t))) (flat-build c ats ns v fl made)
