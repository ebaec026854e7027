-- ===== src/Bindings/Conform/Unliteral.antt =====
-- `exportLiteral` of an object with mixed content.
use sdrportal.Prelude.{
  ℕ, suc, Text, Option, none, some, List, [], ◌∷◌, text_eq, ◌≡◌, refl, sym, ◌∙◌, subst, Bool-cases,
  inl, inr, ◌⊎◌, ◌≢◌,
}
use sdrportal.Exc.{Result, ok, err, attribute_error}
use sdrportal.Dom.{Attrs, Nodes}
use sdrportal.Bindings.Classes.{Class}
use sdrportal.Bindings.Schema.{Child, Shape, structured, valued, mixed, valued_mixed, paragraph}
use sdrportal.Bindings.Tables.{schema}
use sdrportal.Bindings.Value.{
  Value, nothing, string, integer, array, instance_of, container, Fields, end, field, get_field,
}
use sdrportal.Bindings.Parts.{read, has_children, has_content}
use sdrportal.Bindings.Literal.{object_literal, literal, literal_field, in_call}
use sdrportal.Bindings.Build.{build}
use sdrportal.Bindings.Conform.Markup.{IsMarkup}
use sdrportal.Bindings.Conform.{Kinds, declared, Fits, Matches, Conforms}
use sdrportal.Bindings.Conform.Access.{kind_at}
use sdrportal.Bindings.Conform.Declares.{schema-Declares}
use sdrportal.Bindings.Conform.Outcome.{Outcome-ok}
use sdrportal.Bindings.Conform.Sound.{build-Conforms}
use sdrportal.Bindings.Conform.Valued.{
  Returns, IsValued, literal_attributes-Returns, object_literal-value, in_call-err, in_call-Returns,
}

-- The first child of a class with mixed content has no field of its own.
abbrev FirstUndeclared : Shape → List Child → Kinds → Type 0
FirstUndeclared mixed [] ds = ⊥
FirstUndeclared mixed (c ∷ cs) ds = kind_at c.field ds ≡ none
FirstUndeclared _ cs ds = Unit

schema-FirstUndeclared :
    (c : Class) → FirstUndeclared (schema c).shape (schema c).children (declared (schema c))
unfolding declared schema text_eq
schema-FirstUndeclared Class.description_type = refl
schema-FirstUndeclared Class.enumvalue_type = refl
schema-FirstUndeclared Class.linked_text_type = refl
schema-FirstUndeclared Class.highlight_type = refl
schema-FirstUndeclared Class.doc_sect1_type = refl
schema-FirstUndeclared Class.doc_sect2_type = refl
schema-FirstUndeclared Class.doc_sect3_type = refl
schema-FirstUndeclared Class.doc_sect4_type = refl
schema-FirstUndeclared Class.doc_internal_type = refl
schema-FirstUndeclared Class.doc_internal_s1_type = refl
schema-FirstUndeclared Class.doc_internal_s2_type = refl
schema-FirstUndeclared Class.doc_internal_s3_type = refl
schema-FirstUndeclared Class.doc_internal_s4_type = refl
schema-FirstUndeclared Class.doc_param_name = refl
schema-FirstUndeclared c = tt

pub undeclared :
    (k : Text) (fs : Fields) (ds : Kinds)
    → Matches fs ds
    → kind_at k ds ≡ none
    → get_field k fs ≡ none
unfolding get_field Matches
undeclared k end ds m at = refl
undeclared k (field j v fs) [] m at = absurd m
undeclared k (field j v fs) ((i, μ) ∷ ds) (same, fit, m) at = elim (Bool-cases (text_eq i k)) [
  | inl e ↦ let first : kind_at k ((i, μ) ∷ ds) ≡ some μ = rw e refl in cc
  | inr e ↦
      let rest : kind_at k ((i, μ) ∷ ds) ≡ kind_at k ds = rw e refl in
      rw (same, e) (undeclared k fs ds m (sym rest ∙ at))
]

lacks_content :
    (s : Shape) (cs : List Child) (fs : Fields) (ds : Kinds)
    → Matches fs ds
    → s ≡ mixed
    → FirstUndeclared s cs ds
    → has_content s cs fs ≡ err attribute_error
unfolding has_content has_children
lacks_content mixed [] fs ds m e un = absurd un
lacks_content mixed (c ∷ cs) fs ds m e un =
    let lacks = undeclared c.field fs ds m un in
    let reads : read c.field fs ≡ err attribute_error = rw (read, lacks) refl in rw reads refl
lacks_content structured cs fs ds m e un = cc
lacks_content valued cs fs ds m e un = cc
lacks_content valued_mixed cs fs ds m e un = cc
lacks_content paragraph cs fs ds m e un = cc

object_literal-mixed :
    (inside : Option Text → Text → ℕ → Result Text) (level : ℕ) (c : Class) (fs : Fields)
    → Matches fs (declared (schema c))
    → (schema c).shape ≡ mixed
    → object_literal inside level (schema c) fs ≡ err attribute_error
unfolding object_literal
object_literal-mixed inside level c fs m e =
    let (t, attrs) =
      literal_attributes-Returns (suc level) (schema c).attributes fs (declared (schema c)) m
        (schema-Declares c).0 in
    let lacks =
      lacks_content (schema c).shape (schema c).children fs (declared (schema c)) m e
        (schema-FirstUndeclared c) in
    rw attrs (rw lacks refl)

-- What `exportLiteral` of an object of a class with mixed content comes to, by its shape.
abbrev Comes : Shape → Result Text → Type 0
Comes structured r = Unit
Comes mixed r = r ≡ err attribute_error
Comes _ r = Returns r

object_literal-Comes :
    (inside : Option Text → Text → ℕ → Result Text) (level : ℕ) (c : Class) (fs : Fields)
    → Matches fs (declared (schema c))
    → (s : Shape) → s ≡ (schema c).shape
    → Comes s (object_literal inside level (schema c) fs)
object_literal-Comes inside level c fs m structured e = tt
object_literal-Comes inside level c fs m mixed e = object_literal-mixed inside level c fs m (sym e)
object_literal-Comes inside level c fs m valued e =
    object_literal-value inside level c fs m (subst IsValued e tt)
object_literal-Comes inside level c fs m valued_mixed e =
    object_literal-value inside level c fs m (subst IsValued e tt)
object_literal-Comes inside level c fs m paragraph e =
    object_literal-value inside level c fs m (subst IsValued e tt)

in_call-Comes :
    (s : Shape) (opening : Option Text) (level : ℕ) (r : Result Text)
    → Comes s r
    → Comes s (in_call opening level r)
in_call-Comes structured opening level r h = tt
in_call-Comes mixed opening level r h = rw h (in_call-err opening level)
in_call-Comes valued opening level r h = in_call-Returns opening level r h
in_call-Comes valued_mixed opening level r h = in_call-Returns opening level r h
in_call-Comes paragraph opening level r h = in_call-Returns opening level r h

literal-Comes :
    (c : Class) (v : Value) (opening : Option Text) (level : ℕ)
    → Conforms c v
    → Comes (schema c).shape (literal opening v level)
unfolding Fits literal
literal-Comes c nothing opening level (fit, some_value) = absurd (some_value refl)
literal-Comes c (string t) opening level (fit, some_value) = absurd fit
literal-Comes c (integer m n) opening level (fit, some_value) = absurd fit
literal-Comes c (array vs) opening level ((is, all), some_value) = absurd is
literal-Comes c (container cat n v) opening level (fit, some_value) = absurd fit
literal-Comes c (instance_of d fs) opening level ((of, m), some_value) =
    subst (λ x. Comes (schema x).shape (literal opening (instance_of d fs) level)) (sym of)
      (in_call-Comes (schema d).shape opening level _ (
        object_literal-Comes (λ o k lv. literal_field o fs k lv) level d fs m (schema d).shape
          refl))

by_shape :
    (s : Shape) (r : Result Text)
    → IsMarkup s
    → Comes s r
    → ((s ≡ mixed) × (r ≡ err attribute_error)) ⊎ ((s ≢ mixed) × (t : Text) × (r ≡ ok t))
by_shape structured r mk h = absurd mk
by_shape valued r mk h = absurd mk
by_shape mixed r mk h = inl (refl, h)
by_shape valued_mixed r mk (t, e) = inr (λ x. cc, t, e)
by_shape paragraph r mk (t, e) = inr (λ x. cc, t, e)

-- `exportLiteral`, alone or in a list, of what `build` of a class with mixed content gives, if it gives
-- an object, raises AttributeError if the class is of the shape `mixed`, whose hasContent_ asks for the
-- fields of child elements; and it returns if the class is of the two other shapes of mixed content,
-- whose hasContent_ asks for the value.
pub literal-mixed :
    (c : Class) (ats : Attrs) (ns : Nodes) (v : Value) (opening : Option Text) (level : ℕ)
    → IsMarkup (schema c).shape
    → build c ats ns ≡ ok v
    → (((schema c).shape ≡ mixed) × (literal opening v level ≡ err attribute_error))
      ⊎ (((schema c).shape ≢ mixed) × (t : Text) × (literal opening v level ≡ ok t))
literal-mixed c ats ns v opening level mk built =
    by_shape (schema c).shape (literal opening v level) mk
      (literal-Comes c v opening level (Outcome-ok (build-Conforms c ats ns) built))
