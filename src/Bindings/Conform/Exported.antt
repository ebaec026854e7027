-- ===== src/Bindings/Conform/Exported.antt =====
-- `export` of an object that the bindings built.
use sdrportal.Prelude.{
  [], ◌∷◌, ℕ, Text, text_eq, ◌≡◌, sym, ap, ◌∙◌, subst, some, Bool-cases, inl, inr,
}
use sdrportal.Exc.{ok}
use sdrportal.Dom.{Attrs, Nodes}
use sdrportal.Bindings.Classes.{Class}
use sdrportal.Bindings.Tables.{schema}
use sdrportal.Bindings.Value.{
  Category, text_category, simple_category, complex_category, Value, nothing, string, integer,
  array, instance_of, container, Values, nil, cons, Fields, end, field,
}
use sdrportal.Bindings.Export.{export, export_all, export_field}
use sdrportal.Bindings.Build.{build}
use sdrportal.Bindings.Conform.{
  FieldKind, Kinds, maybe_text, maybe_integer, a_text, many_texts, maybe, many, titled, listing,
  contents, TakesText, TakesInteger, ListsText, ListsWords, declared, Fits, AllItems, Item,
  Contained, Matches,
}
use sdrportal.Bindings.Conform.Access.{kind_at, kind_here, kind_there}
use sdrportal.Bindings.Conform.Declares.{schema-Declares}
use sdrportal.Bindings.Conform.Outcome.{Outcome-ok}
use sdrportal.Bindings.Conform.Sound.{build-Conforms}
use sdrportal.Bindings.Conform.Written.{Written, written, Written-bind}
use sdrportal.Bindings.Conform.ObjectText.{HoldsObjects, WellShaped, object_text-Written}

schema-WellShaped : (c : Class) → WellShaped (schema c).shape (schema c).children
unfolding schema
schema-WellShaped Class.doxygen_type = _
schema-WellShaped c = _

objects_only :
    (κ : FieldKind) → HoldsObjects κ → (¬ TakesText κ) × (¬ TakesInteger κ) × (¬ ListsText κ)
objects_only maybe_text o = absurd o
objects_only maybe_integer o = absurd o
objects_only a_text o = absurd o
objects_only many_texts o = absurd o
objects_only (maybe c) o = ((λ x. x), (λ x. x), λ x. x)
objects_only (many c) o = ((λ x. x), (λ x. x), λ x. x)
objects_only (titled c) o = absurd o
objects_only (listing c) o = absurd o
objects_only (contents cs) o = ((λ x. x), (λ x. x), λ x. x)

no_complex_words : (κ : FieldKind) (n : Text) → ¬ ListsWords κ complex_category n
no_complex_words (contents cs) n w = w
no_complex_words (listing c) n w = w
no_complex_words κ n w = w

module _ (repr : Class → Fields → Text) where
  instance-Written :
      (c : Class) (fs : Fields)
      → Matches fs (declared (schema c))
      → ((k : Text) (κ : FieldKind)
          → kind_at k (declared (schema c)) ≡ some κ
          → HoldsObjects κ
          → (level : ℕ) (tag : Text) → Written (export_field repr fs k level tag))
      → (level : ℕ) (name : Text) → Written (export repr (instance_of c fs) level name)
  unfolding export
  instance-Written c fs m inner =
      object_text-Written repr (λ k lv tag. export_field repr fs k lv tag) (schema c) fs m
        (schema-Declares c) (schema-WellShaped c) inner

  mutual
    unfolding export export_all export_field Fits AllItems Item Contained Matches

    Fits-Written :
        (v : Value) (κ : FieldKind)
        → HoldsObjects κ
        → Fits v κ
        → (level : ℕ) (name : Text) → Written (export repr v level name)
    Fits-Written nothing κ o fit level name = written
    Fits-Written (string t) κ o fit level name = absurd ((objects_only κ o).0 fit)
    Fits-Written (integer m n) κ o fit level name = absurd ((objects_only κ o).1 fit)
    Fits-Written (array vs) κ o (is, all) level name = items-Written vs κ o all level name
    Fits-Written (instance_of c fs) κ o (of, m) level name =
        instance-Written c fs m (fields-Written fs (declared (schema c)) m) level name
    Fits-Written (container cat n v) κ o fit level name = absurd fit

    items-Written :
        (vs : Values) (κ : FieldKind)
        → HoldsObjects κ
        → AllItems vs κ
        → (level : ℕ) (name : Text) → Written (export_all repr vs level name)
    items-Written nil κ o all level name = written
    items-Written (cons v vs) κ o (item, all) level name =
        Written-bind (item-Written v κ o item level name)
          (λ first. Written-bind (items-Written vs κ o all level name) (λ rest. written))

    item-Written :
        (v : Value) (κ : FieldKind)
        → HoldsObjects κ
        → Item v κ
        → (level : ℕ) (name : Text) → Written (export repr v level name)
    item-Written nothing κ o item level name = absurd item
    item-Written (string t) κ o item level name = absurd ((objects_only κ o).2 item)
    item-Written (integer m n) κ o item level name = absurd item
    item-Written (array vs) κ o item level name = absurd item
    item-Written (instance_of c fs) κ o (of, m) level name =
        instance-Written c fs m (fields-Written fs (declared (schema c)) m) level name
    item-Written (container cat n v) κ o item level name =
        Contained-Written v cat n κ item level name

    Contained-Written :
        (v : Value) (cat : Category) (n : Text) (κ : FieldKind)
        → Contained v cat n κ
        → (level : ℕ) (name : Text) → Written (export repr (container cat n v) level name)
    Contained-Written nothing cat n κ item level name = absurd item
    Contained-Written (string t) text_category n κ item level name = written
    Contained-Written (string t) simple_category n κ item level name = written
    Contained-Written (string t) complex_category n κ item level name =
        absurd (no_complex_words κ n item)
    Contained-Written (integer m j) cat n κ item level name = absurd item
    Contained-Written (array vs) cat n κ item level name = absurd item
    Contained-Written (instance_of c fs) cat n κ (part, m) level name =
        instance-Written c fs m (fields-Written fs (declared (schema c)) m) level n
    Contained-Written (container c j v) cat n κ item level name = absurd item

    fields-Written :
        (fs : Fields) (ds : Kinds)
        → Matches fs ds
        → (k : Text) (κ : FieldKind) → kind_at k ds ≡ some κ
        → HoldsObjects κ
        → (level : ℕ) (tag : Text) → Written (export_field repr fs k level tag)
    fields-Written end [] m k κ at o level tag = absurd cc
    fields-Written end (d ∷ ds) m k κ at o level tag = absurd m
    fields-Written (field j v fs) [] m k κ at o level tag = absurd m
    fields-Written (field j v fs) ((i, μ) ∷ ds) (same, fit, m) k κ at o level tag =
        elim (Bool-cases (text_eq j k)) [
          | inl e ↦
              let kinds = kind_here k i κ μ ds (ap (λ x. text_eq x k) (sym same) ∙ e) at in
              rw e (Fits-Written v μ (subst HoldsObjects (sym kinds) o) fit level tag)
          | inr e ↦ rw e (
              fields-Written fs ds m k κ
                (kind_there k i κ μ ds (ap (λ x. text_eq x k) (sym same) ∙ e) at) o level tag)
        ]

-- Whatever the element and its children, what `build` of a class gives, if it gives an object, can be
-- written: its `export`, at any indentation and name, returns or raises UnicodeEncodeError, and no
-- other exception.
pub export-build :
    (repr : Class → Fields → Text) (c : Class) (ats : Attrs) (ns : Nodes) (v : Value) (level : ℕ)
    (name : Text)
    → build c ats ns ≡ ok v
    → Written (export repr v level name)
unfolding Fits
export-build repr c ats ns v level name e =
    Fits-Written repr v (maybe c) tt (Outcome-ok (build-Conforms c ats ns) e).0 level name
