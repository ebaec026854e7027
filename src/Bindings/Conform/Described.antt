-- ===== src/Bindings/Conform/Described.antt =====
-- About the text of the descriptions that the bindings built.
use sdrportal.Prelude.{
  Text, Option, some, List, [], ◌∷◌, text_eq, ◌≡◌, refl, sym, ap, ◌∙◌, subst, Bool-cases, inl, inr,
}
use sdrportal.Exc.{ok}
use sdrportal.Str.{strip}
use sdrportal.Dom.{Attrs, Nodes}
use sdrportal.Describe.{Bit, description}
use sdrportal.Describe.Laws.{IsText, AreTexts, flat, description-cases}
use sdrportal.Bindings.Classes.{Class}
use sdrportal.Bindings.Schema.{Child, Shape, structured, valued, mixed, valued_mixed, paragraph}
use sdrportal.Bindings.Tables.{schema}
use sdrportal.Bindings.Value.{
  Category, complex_category, Value, nothing, string, integer, array, instance_of, container,
  Values, nil, cons, Fields, end, field, content_, content,
}
use sdrportal.Bindings.Bits.{object_bit, bit_of, bits_of, items_of, items_at}
use sdrportal.Bindings.Build.{build}
use sdrportal.Bindings.Conform.{
  FieldKind, Kinds, maybe_text, maybe_integer, a_text, many_texts, titled, maybe, many, listing,
  contents, declared, Fits, AllItems, Item, Contained, Matches, Conforms, IsOptional, TakesText,
  TakesInteger, TakesObject, ListsPart, ListsObject, ListsText,
}
use sdrportal.Bindings.Conform.Access.{kind_at, kind_here, kind_there}
use sdrportal.Bindings.Conform.Declares.{schema-Declares, ShapeDeclared}
use sdrportal.Bindings.Conform.Outcome.{Outcome-ok}
use sdrportal.Bindings.Conform.Sound.{build-Conforms}
use sdrportal.Bindings.Conform.Markup.{
  IsMarkup, Closed, schema-Closed, Speaks, branch-IsMarkup, unspoken, Spoken,
}

object-Speaks :
    (s : Shape) (cs : List Child) (ds : Kinds) (fs : Fields) (n : Option Text) (b : Option Bit)
    → IsMarkup s
    → ShapeDeclared s cs ds
    → Closed s cs ds
    → Matches fs ds
    → ((k : Text) (κ : FieldKind) → kind_at k ds ≡ some κ → Speaks κ → Spoken k fs)
    → IsText (object_bit n (items_at content fs) (items_at content_ fs) b)
unfolding IsText schema
object-Speaks structured cs ds fs n b mk de cl m spoken = absurd mk
object-Speaks valued cs ds fs n b mk de cl m spoken = absurd mk
object-Speaks mixed cs ds fs n b mk de (un, all) m spoken =
    let (items, e, speaks) = spoken content_ (contents cs) de all in
    let lacks = unspoken content fs ds m un in rw (lacks, e) speaks
object-Speaks valued_mixed cs ds fs n b mk (de, dv) (un, all) m spoken =
    let (items, e, speaks) = spoken content_ (contents cs) de all in
    let lacks = unspoken content fs ds m un in rw (lacks, e) speaks
object-Speaks paragraph cs ds fs n b mk (de, dl, dv) cl m spoken =
    let (items, e, speaks) = spoken content (listing Class.doc_ref_text_type) dl tt in rw e speaks

markup-IsText :
    (c : Class) (fs : Fields)
    → Matches fs (declared (schema c))
    → IsMarkup (schema c).shape
    → ((k : Text) (κ : FieldKind)
        → kind_at k (declared (schema c)) ≡ some κ
        → Speaks κ
        → Spoken k fs)
    → IsText (bit_of (instance_of c fs))
unfolding bit_of
markup-IsText c fs m mk spoken =
    object-Speaks (schema c).shape (schema c).children (declared (schema c)) fs _ _ mk
      (schema-Declares c).2 (schema-Closed c) m spoken

-- What a list that speaks cannot hold or be.
speaking_lists :
    (κ : FieldKind) (d : Class)
    → Speaks κ
    → (¬ IsOptional κ)
      × (¬ TakesText κ)
      × (¬ TakesInteger κ)
      × (¬ TakesObject κ d)
      × (¬ ListsText κ)
speaking_lists maybe_text d o = absurd o
speaking_lists maybe_integer d o = absurd o
speaking_lists a_text d o = absurd o
speaking_lists many_texts d o = absurd o
speaking_lists (maybe c) d o = absurd o
speaking_lists (many c) d o = absurd o
speaking_lists (titled c) d o = absurd o
speaking_lists (listing c) d o = ((λ x. x), (λ x. x), (λ x. x), (λ x. x), λ x. x)
speaking_lists (contents cs) d o = ((λ x. x), (λ x. x), (λ x. x), (λ x. x), λ x. x)

listed-IsMarkup :
    (κ : FieldKind) (d : Class) → Speaks κ → ListsObject κ d → IsMarkup (schema d).shape
listed-IsMarkup (listing c) d o of = subst (λ x. IsMarkup (schema x).shape) of o
listed-IsMarkup (contents cs) d o of = absurd of
listed-IsMarkup κ d o of = absurd o

part-IsMarkup :
    (κ : FieldKind) (cat : Category) (n : Text) (d : Class)
    → Speaks κ
    → ListsPart κ cat n d
    → IsMarkup (schema d).shape
part-IsMarkup (contents cs) complex_category n d o (c, found, kind) =
    branch-IsMarkup n cs c d o found kind
part-IsMarkup κ cat n d o part = absurd part

mutual
  unfolding bit_of bits_of items_of items_at IsText AreTexts Fits AllItems Item Contained Matches

  item-Speaks : (v : Value) (κ : FieldKind) → Speaks κ → Item v κ → IsText (bit_of v)
  item-Speaks nothing κ o item = absurd item
  item-Speaks (string t) κ o item = tt
  item-Speaks (integer m n) κ o item = absurd item
  item-Speaks (array vs) κ o item = absurd item
  item-Speaks (instance_of d fs) κ o (of, m) =
      markup-IsText d fs m (listed-IsMarkup κ d o of) (field-Speaks fs (declared (schema d)) m)
  item-Speaks (container cat n v) κ o item = Contained-Speaks v cat n κ o item

  Contained-Speaks :
      (v : Value) (cat : Category) (n : Text) (κ : FieldKind)
      → Speaks κ
      → Contained v cat n κ
      → IsText (bit_of v)
  Contained-Speaks nothing cat n κ o item = absurd item
  Contained-Speaks (string t) cat n κ o item = tt
  Contained-Speaks (integer m j) cat n κ o item = absurd item
  Contained-Speaks (array vs) cat n κ o item = absurd item
  Contained-Speaks (instance_of d fs) cat n κ o (part, m) =
      markup-IsText d fs m (part-IsMarkup κ cat n d o part)
        (field-Speaks fs (declared (schema d)) m)
  Contained-Speaks (container c j v) cat n κ o item = absurd item

  items-Speaks : (vs : Values) (κ : FieldKind) → Speaks κ → AllItems vs κ → AreTexts (bits_of vs)
  items-Speaks nil κ o all = tt
  items-Speaks (cons v vs) κ o (item, all) = (item-Speaks v κ o item, items-Speaks vs κ o all)

  list-Speaks : (v : Value) (κ : FieldKind) → Speaks κ → Fits v κ → AreTexts (items_of v)
  list-Speaks nothing κ o fit = absurd ((speaking_lists κ Class.doxygen_type o).0 fit)
  list-Speaks (string t) κ o fit = absurd ((speaking_lists κ Class.doxygen_type o).1 fit)
  list-Speaks (integer m n) κ o fit = absurd ((speaking_lists κ Class.doxygen_type o).2 fit)
  list-Speaks (array vs) κ o (is, all) = items-Speaks vs κ o all
  list-Speaks (instance_of d fs) κ o (of, m) = absurd ((speaking_lists κ d o).3 of)
  list-Speaks (container cat n v) κ o fit = absurd fit

  pub field-Speaks :
      (fs : Fields) (ds : Kinds)
      → Matches fs ds
      → (k : Text) (κ : FieldKind) → kind_at k ds ≡ some κ
      → Speaks κ
      → Spoken k fs
  field-Speaks end [] m k κ at o = absurd cc
  field-Speaks end (d ∷ ds) m k κ at o = absurd m
  field-Speaks (field j v fs) [] m k κ at o = absurd m
  field-Speaks (field j v fs) ((i, μ) ∷ ds) (same, fit, m) k κ at o =
      elim (Bool-cases (text_eq j k)) [
        | inl e ↦
            let kinds = kind_here k i κ μ ds (ap (λ x. text_eq x k) (sym same) ∙ e) at in
            rw e (items_of v, refl, list-Speaks v μ (subst Speaks (sym kinds) o) fit)
        | inr e ↦ rw e (
            field-Speaks fs ds m k κ
              (kind_there k i κ μ ds (ap (λ x. text_eq x k) (sym same) ∙ e) at) o)
      ]

pub instance-IsText :
    (d : Class) (fs : Fields)
    → Matches fs (declared (schema d))
    → IsMarkup (schema d).shape
    → IsText (bit_of (instance_of d fs))
instance-IsText d fs m mk = markup-IsText d fs m mk (field-Speaks fs (declared (schema d)) m)

conforming-IsText :
    (c : Class) (v : Value) → IsMarkup (schema c).shape → Conforms c v → IsText (bit_of v)
unfolding Fits
conforming-IsText c nothing mk (fit, some_value) = absurd (some_value refl)
conforming-IsText c (string t) mk (fit, some_value) = absurd fit
conforming-IsText c (integer m n) mk (fit, some_value) = absurd fit
conforming-IsText c (array vs) mk ((is, all), some_value) = absurd is
conforming-IsText c (container cat n v) mk (fit, some_value) = absurd fit
conforming-IsText c (instance_of d fs) mk ((of, m), some_value) =
    markup-IsText d fs m (subst (λ x. IsMarkup (schema x).shape) of mk)
      (field-Speaks fs (declared (schema d)) m)

-- What `build` of a class with mixed content gives, if it gives an object, has a text: `description`
-- of it raises nothing, and gives the object's marked up text, stripped of the white space around it.
pub description-build :
    (c : Class) (ats : Attrs) (ns : Nodes) (v : Value)
    → IsMarkup (schema c).shape
    → build c ats ns ≡ ok v
    → description (some (bit_of v)) ≡ ok (some (strip (flat (bit_of v))))
description-build c ats ns v mk built =
    let speaks = conforming-IsText c v mk (Outcome-ok (build-Conforms c ats ns) built) in
    elim (description-cases (bit_of v)) [ inl h ↦ h.1 | inr h ↦ absurd (h.0 speaks) ]
