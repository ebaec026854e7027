-- ===== src/Bindings/Conform/Placed.antt =====
-- What each branch of `buildChildren` adds to the text of an object of mixed content.
use sdrportal.Prelude.{
  Text, Option, none, some, List, [], ◌∷◌, ◌++◌, append-nil, false, text_eq, ◌≡◌, refl, sym, ap,
  ◌∙◌, subst, Bool-cases, inl, inr,
}
use sdrportal.Exc.{Result, ok}
use sdrportal.Describe.{break_after}
use sdrportal.Describe.Laws.{flat}
use sdrportal.Bindings.Classes.{Class}
use sdrportal.Bindings.Schema.{
  ChildKind, simple, objects, complex, listed, Child, child, Shape, structured, valued, mixed,
  valued_mixed, paragraph, find_child,
}
use sdrportal.Bindings.Value.{
  Value, string, container, simple_category, complex_category, Fields, value_of, content_, content,
  append_field, extend_field,
}
use sdrportal.Bindings.Bits.{bit_of}
use sdrportal.Bindings.Build.{place, place_text, place_cdata, place_found, words_item, cdata_text}
use sdrportal.Bindings.Conform.Markup.{IsMarkup}
use sdrportal.Bindings.Conform.Sound.{found_first, found_later}
use sdrportal.Bindings.Conform.Heard.{
  heard, bind-ok, append-heard, append-heard_other, extend-heard_other,
}
use sdrportal.Bindings.Conform.Marked.{key, Fluent, Adds, AllAdd, AddsIf, child_text}

pub text_heard :
    (s : Shape) (t : Text) (fs gs : Fields)
    → IsMarkup s
    → place_text s t fs ≡ ok gs
    → heard (key s) gs ≡ heard (key s) fs ++ t
unfolding place_text bit_of flat text_eq
text_heard structured t fs gs mk e = absurd mk
text_heard valued t fs gs mk e = absurd mk
text_heard mixed t fs gs mk e = append-heard content_ (words_item t) fs gs e
text_heard valued_mixed t fs gs mk e =
    let (fs1, e1, e2) = bind-ok (append_field content_ (words_item t) fs) _ gs e in
    extend-heard_other content_ value_of t fs1 gs refl e2
    ∙ append-heard content_ (words_item t) fs fs1 e1
text_heard paragraph t fs gs mk e =
    let (fs1, e1, e') = bind-ok (append_field content_ (words_item t) fs) _ gs e in
    let (fs2, e2, e3) = bind-ok (extend_field value_of t fs1) _ gs e' in
    append-heard content (words_item t) fs2 gs e3
    ∙ ap (λ x. x ++ t)
        (extend-heard_other content value_of t fs1 fs2 refl e2
          ∙ append-heard_other content content_ (words_item t) fs fs1 refl e1)

pub unchanged : (k : Text) (fs gs : Fields) → Result.ok fs ≡ ok gs → heard k gs ≡ heard k fs ++ []
unchanged k fs gs e =
    let same : fs ≡ gs = cc in ap (heard k) (sym same) ∙ sym (append-nil (heard k fs))

pub cdata_heard :
    (s : Shape) (t : Text) (fs gs : Fields)
    → IsMarkup s
    → place_cdata s t fs ≡ ok gs
    → heard (key s) gs ≡ heard (key s) fs ++ []
unfolding place_cdata text_eq
cdata_heard structured t fs gs mk e = absurd mk
cdata_heard valued t fs gs mk e = absurd mk
cdata_heard mixed t fs gs mk e = unchanged content_ fs gs e
cdata_heard valued_mixed t fs gs mk e =
    extend-heard_other content_ value_of (cdata_text t) fs gs refl e
    ∙ sym (append-nil (heard content_ fs))
cdata_heard paragraph t fs gs mk e =
    extend-heard_other content value_of (cdata_text t) fs gs refl e
    ∙ sym (append-nil (heard content fs))

module _ (tag k : Text) (built : Class → Result Value) (words : Result Text) (spoken : Class → Text)
    (inner : (d : Class) (v : Value) → Fluent d → built d ≡ ok v → flat (bit_of v) ≡ spoken d)
    (fs gs : Fields) where
  complex_heard :
      (d : Class)
      → Fluent d
      → place (child tag k (complex d)) built words fs ≡ ok gs
      → heard content_ gs ≡ heard content_ fs ++ break_after (some tag) (spoken d)
  unfolding place bit_of flat
  complex_heard d fl e =
      let (v, e1, e2) = bind-ok (built d) _ gs e in
      append-heard content_ (container complex_category tag v) fs gs e2
      ∙ ap (λ x. heard content_ fs ++ break_after (some tag) x) (inner d v fl e1)

  simple_heard :
      place (child tag k simple) built words fs ≡ ok gs
      → heard content_ gs ≡ heard content_ fs ++ child_text (some (child tag k simple)) spoken words
  unfolding place bit_of flat
  simple_heard e =
      let (t, e1, e2) = bind-ok words _ gs e in
      rw e1 (append-heard content_ (container simple_category tag (string t)) fs gs e2)

  listed_heard :
      (d : Class)
      → Fluent d
      → place (child tag k (listed d)) built words fs ≡ ok gs
      → heard content gs ≡ heard content fs ++ spoken d
  unfolding place
  listed_heard d fl e =
      let (v, e1, e2) = bind-ok (built d) _ gs e in
      append-heard content v fs gs e2 ∙ ap (λ x. heard content fs ++ x) (inner d v fl e1)

  objects_heard :
      (d : Class)
      → text_eq k content ≡ false
      → place (child tag k (objects d)) built words fs ≡ ok gs
      → heard content gs ≡ heard content fs ++ []
  unfolding place
  objects_heard d other e =
      let (v, e1, e2) = bind-ok (built d) _ gs e in
      append-heard_other content k v fs gs other e2 ∙ sym (append-nil (heard content fs))

  place-heard :
      (s : Shape) (kind : ChildKind)
      → IsMarkup s
      → Adds s kind k
      → place (child tag k kind) built words fs ≡ ok gs
      → heard (key s) gs ≡ heard (key s) fs ++ child_text (some (child tag k kind)) spoken words
  place-heard structured kind mk add e = absurd mk
  place-heard valued kind mk add e = absurd mk
  place-heard mixed (complex d) mk add e = complex_heard d add e
  place-heard mixed simple mk add e = simple_heard e
  place-heard mixed kind mk add e = absurd add
  place-heard valued_mixed (complex d) mk add e = complex_heard d add e
  place-heard valued_mixed simple mk add e = simple_heard e
  place-heard valued_mixed kind mk add e = absurd add
  place-heard paragraph (listed d) mk add e = listed_heard d add e
  place-heard paragraph (objects d) mk add e = objects_heard d add e
  place-heard paragraph kind mk add e = absurd add

pub markup_adds : (s : Shape) (cs : List Child) → IsMarkup s → AddsIf s cs → AllAdd s cs
markup_adds structured cs mk add = absurd mk
markup_adds valued cs mk add = absurd mk
markup_adds s cs mk add = add

found-Adds :
    (n : Text) (s : Shape) (cs : List Child) (c : Child)
    → AllAdd s cs
    → find_child n cs ≡ some c
    → Adds s c.kind c.field
unfolding find_child
found-Adds n s [] c add e = absurd cc
found-Adds n s (d ∷ cs) c (first, add) e = elim (Bool-cases (text_eq d.tag n)) [
  | inl same ↦ subst (λ x. Adds s x.kind x.field) (found_first n d c cs same e) first
  | inr other ↦ found-Adds n s cs c add (found_later n d c cs other e)
]

pub found_heard :
    (n : Text) (s : Shape) (cs : List Child) (found : Option Child) (built : Class → Result Value)
    (words : Result Text) (spoken : Class → Text) (fs gs : Fields)
    → IsMarkup s
    → AllAdd s cs
    → find_child n cs ≡ found
    → ((d : Class) (v : Value) → Fluent d → built d ≡ ok v → flat (bit_of v) ≡ spoken d)
    → place_found found built words fs ≡ ok gs
    → heard (key s) gs ≡ heard (key s) fs ++ child_text found spoken words
found_heard n s cs none built words spoken fs gs mk add e inner placed =
    unchanged (key s) fs gs placed
found_heard n s cs (some c) built words spoken fs gs mk add e inner placed =
    place-heard c.tag c.field built words spoken inner fs gs s c.kind mk (found-Adds n s cs c add e)
      placed
