-- ===== src/Bindings/Conform/Access.antt =====
-- About reading and writing the fields of an object that conforms to its schema.
use sdrportal.Prelude.{
  Text, Option, none, some, [], ◌∷◌, ◌++◌, true, false, text_eq, if◌then◌else◌, ◌≡◌, refl, sym, ◌∙◌,
  subst, Bool-cases, inl, inr,
}
use sdrportal.Bindings.Classes.{Class}
use sdrportal.Exc.{ok}
use sdrportal.Bindings.Value.{
  Value, nothing, string, integer, array, instance_of, container, Values, nil, cons, Fields, end,
  field, get_field, set_field, snoc, with_item, with_text, append_field, extend_field,
}
use sdrportal.Bindings.Conform.{
  FieldKind, Kinds, maybe_text, maybe_integer, a_text, many_texts, maybe, many, titled, listing,
  contents, IsList, IsOptional, TakesText, TakesInteger, TakesObject, Fits, AllItems, Item, Matches,
}

-- The kind of a field.
abbrev pub kind_at : Text → Kinds → Option FieldKind
kind_at k [] = none
kind_at k ((j, κ) ∷ ds) = if text_eq j k then some κ else kind_at k ds

pub some_injective {ℓ} : {A : Type ℓ} {a b : A} → some a ≡ some b → a ≡ b
some_injective h = cc

pub kind_here :
    (k j : Text) (κ μ : FieldKind) (ds : Kinds)
    → text_eq j k ≡ true
    → kind_at k ((j, μ) ∷ ds) ≡ some κ
    → μ ≡ κ
kind_here k j κ μ ds e at =
    let first : kind_at k ((j, μ) ∷ ds) ≡ some μ = rw e refl in some_injective (sym first ∙ at)

pub kind_there :
    (k j : Text) (κ μ : FieldKind) (ds : Kinds)
    → text_eq j k ≡ false
    → kind_at k ((j, μ) ∷ ds) ≡ some κ
    → kind_at k ds ≡ some κ
kind_there k j κ μ ds e at =
    let rest : kind_at k ((j, μ) ∷ ds) ≡ kind_at k ds = rw e refl in sym rest ∙ at

pub set_field-Matches :
    (k : Text) (κ : FieldKind) (v : Value) (fs : Fields) (ds : Kinds)
    → Matches fs ds
    → kind_at k ds ≡ some κ
    → Fits v κ
    → Matches (set_field k v fs) ds
unfolding set_field Matches
set_field-Matches k κ v end [] m at fits = cc
set_field-Matches k κ v end (d ∷ ds) m at fits = absurd m
set_field-Matches k κ v (field j w fs) [] m at fits = absurd m
set_field-Matches k κ v (field j w fs) ((i, μ) ∷ ds) (same, fit, m) at fits =
    elim (Bool-cases (text_eq j k)) [
      | inl e ↦
          let here : text_eq i k ≡ true = rw (← same) e in
          rw e (same, subst (λ x. Fits v x) (sym (kind_here k i κ μ ds here at)) fits, m)
      | inr e ↦
          let there : text_eq i k ≡ false = rw (← same) e in
          rw e (same, fit, set_field-Matches k κ v fs ds m (kind_there k i κ μ ds there at) fits)
    ]

pub get_field-Matches :
    (k : Text) (κ : FieldKind) (fs : Fields) (ds : Kinds)
    → Matches fs ds
    → kind_at k ds ≡ some κ
    → (v : Value) × (get_field k fs ≡ some v) × Fits v κ
unfolding get_field Matches
get_field-Matches k κ end [] m at = cc
get_field-Matches k κ end (d ∷ ds) m at = absurd m
get_field-Matches k κ (field j w fs) [] m at = absurd m
get_field-Matches k κ (field j w fs) ((i, μ) ∷ ds) (same, fit, m) at =
    elim (Bool-cases (text_eq j k)) [
      | inl e ↦
          let here : text_eq i k ≡ true = rw (← same) e in
          rw e (w, refl, subst (λ x. Fits w x) (kind_here k i κ μ ds here at) fit)
      | inr e ↦
          let there : text_eq i k ≡ false = rw (← same) e in
          rw e (get_field-Matches k κ fs ds m (kind_there k i κ μ ds there at))
    ]

pub snoc-AllItems :
    (vs : Values) (v : Value) (κ : FieldKind) → AllItems vs κ → Item v κ → AllItems (snoc vs v) κ
unfolding snoc AllItems
snoc-AllItems nil v κ all item = (item, _)
snoc-AllItems (cons w vs) v κ (first, all) item = (first, snoc-AllItems vs v κ all item)

-- A field that is a list has one.
list_only :
    (κ : FieldKind) (d : Class)
    → IsList κ
    → (¬ IsOptional κ) × (¬ TakesText κ) × (¬ TakesInteger κ) × (¬ TakesObject κ d)
list_only maybe_text d l = absurd l
list_only maybe_integer d l = absurd l
list_only a_text d l = absurd l
list_only many_texts d l = ((λ x. x), (λ x. x), (λ x. x), λ x. x)
list_only (maybe c) d l = absurd l
list_only (many c) d l = ((λ x. x), (λ x. x), (λ x. x), λ x. x)
list_only (titled c) d l = absurd l
list_only (listing c) d l = ((λ x. x), (λ x. x), (λ x. x), λ x. x)
list_only (contents cs) d l = ((λ x. x), (λ x. x), (λ x. x), λ x. x)

pub with_item-Fits :
    (κ : FieldKind) (w v : Value)
    → IsList κ
    → Fits w κ
    → Item v κ
    → (u : Value) × (with_item v (some w) ≡ ok u) × Fits u κ
unfolding Fits
with_item-Fits κ (array vs) v list (is, all) item =
    (array (snoc vs v), refl, (is, snoc-AllItems vs v κ all item))
with_item-Fits κ nothing v list fit item = absurd ((list_only κ Class.doxygen_type list).0 fit)
with_item-Fits κ (string t) v list fit item = absurd ((list_only κ Class.doxygen_type list).1 fit)
with_item-Fits κ (integer m n) v list fit item =
    absurd ((list_only κ Class.doxygen_type list).2 fit)
with_item-Fits κ (instance_of d fs) v list (of, m) item = absurd ((list_only κ d list).3 of)
with_item-Fits κ (container cat n w) v list fit item = absurd fit

pub append_field-Matches :
    (k : Text) (κ : FieldKind) (v : Value) (fs : Fields) (ds : Kinds)
    → Matches fs ds
    → kind_at k ds ≡ some κ
    → IsList κ
    → Item v κ
    → (gs : Fields) × (append_field k v fs ≡ ok gs) × Matches gs ds
unfolding append_field
append_field-Matches k κ v fs ds m at list item =
    let (w, got, fit) = get_field-Matches k κ fs ds m at in
    let (u, added, fits) = with_item-Fits κ w v list fit item in
    (set_field k u fs, rw (append_field, got, added) refl, set_field-Matches k κ u fs ds m at fits)

with_text-Fits :
    (t : Text) (w : Value)
    → Fits w a_text
    → (u : Value) × (with_text t (some w) ≡ ok u) × Fits u a_text
unfolding Fits
with_text-Fits t (string s) fit = (string (s ++ t), refl, _)
with_text-Fits t (array vs) (is, all) = absurd is
with_text-Fits t (instance_of d fs) (of, m) = absurd of
with_text-Fits t nothing fit = absurd fit
with_text-Fits t (integer m n) fit = absurd fit
with_text-Fits t (container cat n w) fit = absurd fit

pub extend_field-Matches :
    (k t : Text) (fs : Fields) (ds : Kinds)
    → Matches fs ds
    → kind_at k ds ≡ some a_text
    → (gs : Fields) × (extend_field k t fs ≡ ok gs) × Matches gs ds
unfolding extend_field
extend_field-Matches k t fs ds m at =
    let (w, got, fit) = get_field-Matches k a_text fs ds m at in
    let (u, joined, fits) = with_text-Fits t w fit in
    (
      set_field k u fs,
      rw (extend_field, got, joined) refl,
      set_field-Matches k a_text u fs ds m at fits,
    )
