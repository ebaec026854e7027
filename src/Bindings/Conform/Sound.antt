-- ===== src/Bindings/Conform/Sound.antt =====
-- About what `build` gives for a document.
use sdrportal.Prelude.{
  Text, Option, none, some, List, [], ◌∷◌, true, false, text_eq, text_eq_iff, ◌≡◌, refl, sym, ap,
  ◌∙◌, subst, Bool-cases, inl, inr,
}
use sdrportal.Exc.{Result, ok, ◌>>=◌}
use sdrportal.Dom.{
  Attrs, Node, element, comment, cdata, Nodes, nil, cons, node_value, get, local_name,
}
use sdrportal.Dom
use sdrportal.Index.Build.{concat_values}
use sdrportal.Bindings.Classes.{Class}
use sdrportal.Bindings.Schema.{
  ChildKind, text, texts, simple, object, objects, title, complex, listed, Child, child, Shape,
  structured, valued, mixed, valued_mixed, paragraph, find_child,
}
use sdrportal.Bindings.Tables.{schema}
use sdrportal.Bindings.Value.{
  Value, string, instance_of, container, simple_category, complex_category, Fields, value_of,
  content_, content, initial,
}
use sdrportal.Bindings.Build.{
  build_attributes, place, place_text, place_cdata, place_found, words_item, cdata_text,
  build_child, build_children, build,
}
use sdrportal.Bindings.Conform.{
  Kinds, a_text, many_texts, maybe, many, titled, listing, contents, declared, Fits, Item, Matches,
  Conforms,
}
use sdrportal.Bindings.Conform.Access.{
  some_injective, set_field-Matches, append_field-Matches, extend_field-Matches,
}
use sdrportal.Bindings.Conform.Declares.{
  ChildDeclared, ChildrenDeclared, ShapeDeclared, schema-Declares,
}
use sdrportal.Bindings.Conform.Outcome.{Outcome, good, Outcome-bind, Outcome-map, good_value}
use sdrportal.Bindings.Conform.Faulty.{HasElement, BadAttrs, FaultOf, FaultIn, Faulty, FaultyNode}
use sdrportal.Prelude.{◌⊎◌}
use sdrportal.Bindings.Conform.Initial.{initial-Matches}
use sdrportal.Bindings.Conform.Reading.{concat_values-Outcome, build_attributes-Outcome}

-- An object of the class that conforms to it.
abbrev Built : Class → Value → Type 0
Built d v = (fs : Fields) × (v ≡ instance_of d fs) × Matches fs (declared (schema d))

Built-Fits :
    (d : Class) (v : Value)
    → Built d v
    → Fits v (maybe d) × Fits v (titled d) × Item v (many d) × Item v (listing d)
unfolding Fits Item
Built-Fits d v (fs, e, m) = rw e ((refl, m), (refl, m), (refl, m), (refl, m))

module _ (W : Type 0) (B : Class → Type 0) (cs : List Child) (tag field : Text)
    (built : Class → Result Value) (words : Result Text) (fs : Fields) (ds : Kinds)
    (m : Matches fs ds) where
  place-Outcome :
      (kind : ChildKind)
      → ChildDeclared kind field cs ds
      → find_child tag cs ≡ some (child tag field kind)
      → ((d : Class) → Outcome (B d) (Built d) (built d))
      → Outcome {0, 0} W (λ t. Unit {0}) words
      → Outcome
          (FaultOf kind W B)
          (λ gs. Matches gs ds)
          (place (child tag field kind) built words fs)
  unfolding place Fits Item
  place-Outcome text at found made words =
      Outcome-bind words (λ t u. good (set_field-Matches field a_text (string t) fs ds m at tt))
  place-Outcome texts at found made words =
      Outcome-bind words
        (λ t u. good_value (append_field-Matches field many_texts (string t) fs ds m at tt tt))
  place-Outcome simple at found made words = Outcome-bind words (λ t u. good_value (
      append_field-Matches content_ (contents cs) (container simple_category tag (string t)) fs ds m
        at tt (child tag field simple, found, refl)))
  place-Outcome (object d) at found made words =
      Outcome-bind (made d)
        (λ v b. good (set_field-Matches field (maybe d) v fs ds m at (Built-Fits d v b).0))
  place-Outcome (title d) at found made words =
      Outcome-bind (made d)
        (λ v b. good (set_field-Matches field (titled d) v fs ds m at (Built-Fits d v b).1))
  place-Outcome (objects d) at found made words =
      Outcome-bind (made d) (λ v b.
        good_value (append_field-Matches field (many d) v fs ds m at tt (Built-Fits d v b).2))
  place-Outcome (listed d) at found made words = Outcome-bind (made d) (λ v b.
      good_value (append_field-Matches content (listing d) v fs ds m at tt (Built-Fits d v b).3))
  place-Outcome (complex d) at found made words = Outcome-bind (made d) (λ v b.
      let (gs, e, own) = b in
      let item : Item (container complex_category tag v) (contents cs) =
        rw e ((child tag field (complex d), found, refl), own) in
      good_value (
        append_field-Matches content_ (contents cs) (container complex_category tag v) fs ds m at tt
          item))

pub found_first :
    (n : Text) (d c : Child) (cs : List Child)
    → text_eq d.tag n ≡ true
    → find_child n (d ∷ cs) ≡ some c
    → d ≡ c
unfolding find_child
found_first n d c cs same e =
    let first : find_child n (d ∷ cs) ≡ some d = rw same refl in some_injective (sym first ∙ e)

pub found_later :
    (n : Text) (d c : Child) (cs : List Child)
    → text_eq d.tag n ≡ false
    → find_child n (d ∷ cs) ≡ some c
    → find_child n cs ≡ some c
unfolding find_child
found_later n d c cs other e =
    let rest : find_child n (d ∷ cs) ≡ find_child n cs = rw other refl in sym rest ∙ e

found_tag : (n : Text) (cs : List Child) (c : Child) → find_child n cs ≡ some c → c.tag ≡ n
unfolding find_child
found_tag n [] c e = cc
found_tag n (d ∷ cs) c e = elim (Bool-cases (text_eq d.tag n)) [
  | inl same ↦ subst (λ x. x.tag ≡ n) (found_first n d c cs same e) ((text_eq_iff d.tag n).0 same)
  | inr other ↦ found_tag n cs c (found_later n d c cs other e)
]

found_declared :
    (n : Text) (all cs : List Child) (c : Child) (ds : Kinds)
    → ChildrenDeclared all cs ds
    → find_child n cs ≡ some c
    → ChildDeclared c.kind c.field all ds
unfolding find_child
found_declared n all [] c ds de e = cc
found_declared n all (d ∷ cs) c ds (at, de) e = elim (Bool-cases (text_eq d.tag n)) [
  | inl same ↦ subst (λ x. ChildDeclared x.kind x.field all ds) (found_first n d c cs same e) at
  | inr other ↦ found_declared n all cs c ds de (found_later n d c cs other e)
]

-- What the branch of `buildChildren` for an element does.
found-Outcome :
    (W : Type 0) (B : Class → Type 0) (n : Text) (cs : List Child) (found : Option Child)
    (built : Class → Result Value) (words : Result Text) (fs : Fields) (ds : Kinds)
    → ChildrenDeclared cs cs ds
    → find_child n cs ≡ found
    → Matches fs ds
    → ((d : Class) → Outcome (B d) (Built d) (built d))
    → Outcome {0, 0} W (λ t. Unit {0}) words
    → Outcome (FaultIn found W B) (λ gs. Matches gs ds) (place_found found built words fs)
found-Outcome W B n cs none built words fs ds de e m made read = good m
found-Outcome W B n cs (some c) built words fs ds de e m made read =
    place-Outcome W B cs c.tag c.field built words fs ds m c.kind (found_declared n cs cs c ds de e)
      (ap (λ k. find_child k cs) (found_tag n cs c e) ∙ e) made read

text-Outcome :
    (s : Shape) (cs : List Child) (t : Text) (fs : Fields) (ds : Kinds)
    → ShapeDeclared s cs ds
    → Matches fs ds
    → Outcome ⊥ (λ gs. Matches gs ds) (place_text s t fs)
unfolding place_text Item
text-Outcome structured cs t fs ds de m = good m
text-Outcome valued cs t fs ds de m = good_value (extend_field-Matches value_of t fs ds m de)
text-Outcome mixed cs t fs ds de m =
    good_value (append_field-Matches content_ (contents cs) (words_item t) fs ds m de tt refl)
text-Outcome valued_mixed cs t fs ds (de, dv) m =
    Outcome-bind
      (good_value (append_field-Matches content_ (contents cs) (words_item t) fs ds m de tt refl))
      (λ gs m'. good_value (extend_field-Matches value_of t gs ds m' dv))
text-Outcome paragraph cs t fs ds (de, dl, dv) m =
    Outcome-bind
      (good_value (append_field-Matches content_ (contents []) (words_item t) fs ds m de tt refl))
      (λ gs m1. Outcome-bind (good_value (extend_field-Matches value_of t gs ds m1 dv)) (λ hs m2.
        good_value (
          append_field-Matches content (listing Class.doc_ref_text_type) (words_item t) hs ds m2 dl
            tt refl)))

cdata-Outcome :
    (s : Shape) (cs : List Child) (t : Text) (fs : Fields) (ds : Kinds)
    → ShapeDeclared s cs ds
    → Matches fs ds
    → Outcome ⊥ (λ gs. Matches gs ds) (place_cdata s t fs)
unfolding place_cdata
cdata-Outcome structured cs t fs ds de m = good m
cdata-Outcome mixed cs t fs ds de m = good m
cdata-Outcome valued cs t fs ds de m =
    good_value (extend_field-Matches value_of (cdata_text t) fs ds m de)
cdata-Outcome valued_mixed cs t fs ds (de, dv) m =
    good_value (extend_field-Matches value_of (cdata_text t) fs ds m dv)
cdata-Outcome paragraph cs t fs ds (de, dl, dv) m =
    good_value (extend_field-Matches value_of (cdata_text t) fs ds m dv)

pub new-Outcome :
    (d : Class) (ats : Attrs)
    → Outcome
        (BadAttrs (schema d).attributes ats)
        (λ fs. Matches fs (declared (schema d)))
        (build_attributes (schema d).attributes ats (initial (schema d)))
new-Outcome d ats =
    build_attributes-Outcome (schema d).attributes ats (initial (schema d)) (declared (schema d))
      (schema-Declares d).0 (initial-Matches (schema d))

mutual
  unfolding build_child build_children Faulty FaultyNode

  child-Outcome :
      (c : Class) (n : Node) (fs : Fields)
      → Matches fs (declared (schema c))
      → Outcome (FaultyNode c n) (λ gs. Matches gs (declared (schema c))) (build_child c n fs)
  child-Outcome c (element n ats cs) fs m =
      found-Outcome (HasElement cs) (λ d. BadAttrs (schema d).attributes ats ⊎ Faulty d cs)
        (local_name n) (schema c).children (find_child (local_name n) (schema c).children)
        (λ d. build_attributes (schema d).attributes ats (initial (schema d)) >>= λ gs.
          build_children d cs gs >>= λ hs. ok (instance_of d hs))
        (concat_values [] cs) fs (declared (schema c)) (schema-Declares c).1 refl m
        (λ d. Outcome-bind (Outcome-map inl (new-Outcome d ats)) (λ gs m'.
          Outcome-bind (Outcome-map inr (children-Outcome d cs gs m'))
            (λ hs m2. good (hs, refl, m2))))
        (concat_values-Outcome [] cs)
  child-Outcome c (Dom.text t) fs m =
      text-Outcome (schema c).shape (schema c).children t fs (declared (schema c))
        (schema-Declares c).2 m
  child-Outcome c (cdata t) fs m =
      cdata-Outcome (schema c).shape (schema c).children t fs (declared (schema c))
        (schema-Declares c).2 m
  child-Outcome c (comment t) fs m = good m

  pub children-Outcome :
      (c : Class) (ns : Nodes) (fs : Fields)
      → Matches fs (declared (schema c))
      → Outcome (Faulty c ns) (λ gs. Matches gs (declared (schema c))) (build_children c ns fs)
  children-Outcome c nil fs m = good m
  children-Outcome c (cons n ns) fs m =
      Outcome-bind (Outcome-map inl (child-Outcome c n fs m))
        (λ gs m'. Outcome-map inr (children-Outcome c ns gs m'))

-- The fault of an element that an object of the class is built from.
abbrev pub Fault : Class → Attrs → Nodes → Type 0
Fault d ats cs = BadAttrs (schema d).attributes ats ⊎ Faulty d cs

-- `build`, for any class, element and children, either returns an object of the class that conforms
-- to the schemas, all the way down, or raises TypeError or ValueError, and only if the document has an
-- element where the schemas want text or a number that is none; it raises no AttributeError.
pub build-Conforms :
    (d : Class) (ats : Attrs) (cs : Nodes) → Outcome (Fault d ats cs) (Conforms d) (build d ats cs)
unfolding build Fits
build-Conforms d ats cs = Outcome-bind (Outcome-map inl (new-Outcome d ats)) (λ fs m.
    Outcome-bind (Outcome-map inr (children-Outcome d cs fs m)) (λ gs m'. good ((refl, m'), cc)))
