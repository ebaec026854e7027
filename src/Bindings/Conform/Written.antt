-- ===== src/Bindings/Conform/Written.antt =====
-- About `export` of attributes and texts that conform to the schema.
use sdrportal.Exc.{Result, ok, err, unicode_error, ◌>>=◌}
use sdrportal.Prelude.{ℕ, Text, some, List, [], ◌∷◌, ◌≡◌, refl, sym, subst, Bool-cases, inl, inr}
use sdrportal.Quote.{encode_ascii, quote_attrib, quote_xml, is_ascii}
use sdrportal.Index.Export.{encoded_attr}
use sdrportal.Bindings.Schema
use sdrportal.Bindings.Schema.{
  AttrKind, plain, encoded, always, Attr, attr, ChildKind, text, texts, simple, object, objects,
  title, complex, listed, Child, Shape, structured, valued, mixed, valued_mixed, paragraph, Schema,
}
use sdrportal.Bindings.Value.{Value, Values, nil, cons, Fields}
use sdrportal.Bindings.Parts.{read, attr_text, export_attributes, text_line, text_lines}
use sdrportal.Bindings.Conform.{FieldKind, Kinds, attr_kind, many_texts, Fits, AllItems, Matches}
use sdrportal.Bindings.Conform.Access.{kind_at, get_field-Matches}
use sdrportal.Bindings.Conform.Cases.{Item-many_texts, maybe_text_cases, maybe_integer_cases}
use sdrportal.Bindings.Conform.Declares.{AttrsDeclared}

-- The call returns, or raises UnicodeEncodeError.
pub data Written {ℓ} {A : Type ℓ} : Result A → Type ℓ where
  written : {a : A} → Written (ok a)
  not_ascii : Written (err unicode_error)

pub Written-bind {ℓ κ} :
    {A : Type ℓ} {B : Type κ} {r : Result A} {f : A → Result B}
    → Written r
    → ((a : A) → Written (f a))
    → Written (r >>= f)
Written-bind (written {a}) k = k a
Written-bind not_ascii k = not_ascii

Written-encode : (t : Text) → Written (encode_ascii t)
unfolding encode_ascii
Written-encode t = elim (Bool-cases (is_ascii t)) [ inl e ↦ rw e written | inr e ↦ rw e not_ascii ]

pub Written-read {ℓ} :
    (k : Text) (κ : FieldKind) (fs : Fields) (ds : Kinds) {B : Type ℓ} (f : Value → Result B)
    → Matches fs ds
    → kind_at k ds ≡ some κ
    → ((v : Value) → Fits v κ → Written (f v))
    → Written (read k fs >>= f)
Written-read k κ fs ds f m at go =
    let (v, got, fit) = get_field-Matches k κ fs ds m at in
    let reads : read k fs ≡ ok v = rw (read, got) refl in
    subst (λ r. Written (r >>= f)) (sym reads) (go v fit)

attr_text-Written :
    (kind : AttrKind) (key : Text) (v : Value)
    → Fits v (attr_kind kind)
    → Written (attr_text kind key v)
unfolding attr_text encoded_attr Fits
attr_text-Written plain key v fit =
    maybe_text_cases (λ w. Written (attr_text plain key w)) written (λ t. written) v fit
attr_text-Written always key v fit =
    maybe_text_cases (λ w. Written (attr_text always key w)) written (λ t. written) v fit
attr_text-Written encoded key v fit =
    maybe_text_cases (λ w. Written (attr_text encoded key w)) written
      (λ t. Written-bind (Written-encode (quote_attrib (some t))) (λ s. written)) v fit
attr_text-Written Schema.integer key v fit =
    maybe_integer_cases (λ w. Written (attr_text Schema.integer key w)) written (λ m n. written) v
      fit

pub export_attributes-Written :
    (ats : List Attr) (fs : Fields) (ds : Kinds)
    → Matches fs ds
    → AttrsDeclared ats ds
    → Written (export_attributes ats fs)
unfolding export_attributes
export_attributes-Written [] fs ds m de = written
export_attributes-Written (attr kind key k ∷ rest) fs ds m (at, de) =
    Written-read k (attr_kind kind) fs ds _ m at (λ v fit.
      Written-bind (attr_text-Written kind key v fit)
        (λ t. Written-bind (export_attributes-Written rest fs ds m de) (λ s. written)))

pub text_line-Written : (level : ℕ) (tag t : Text) → Written (text_line level tag t)
unfolding text_line
text_line-Written level tag t = Written-bind (Written-encode (quote_xml (some t))) (λ s. written)

pub text_lines-Written :
    (level : ℕ) (tag : Text) (vs : Values)
    → AllItems vs many_texts
    → Written (text_lines level tag vs)
unfolding text_lines AllItems
text_lines-Written level tag nil all = written
text_lines-Written level tag (cons v vs) (item, all) =
    let (t, e) = Item-many_texts v item in
    rw e (
      Written-bind (text_line-Written level tag t)
        (λ s. Written-bind (text_lines-Written level tag vs all) (λ r. written)))
