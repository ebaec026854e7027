-- ===== src/Bindings/Conform/Valued.antt =====
-- `exportLiteral` of attributes and of an object with a value.
use sdrportal.Prelude.{
  ℕ, suc, Text, Option, none, some, List, [], ◌∷◌, ◌++◌, ◌≡◌, refl, sym, subst, true,
}
use sdrportal.Exc.{Result, ok, err, attribute_error, ◌>>=◌}
use sdrportal.Bindings.Classes.{Class}
use sdrportal.Bindings.Schema
use sdrportal.Bindings.Schema.{
  AttrKind, plain, encoded, always, Attr, attr, Child, Shape, structured, valued, mixed,
  valued_mixed, paragraph, Schema,
}
use sdrportal.Bindings.Tables.{schema}
use sdrportal.Bindings.Value.{value_of, Value, Fields, get_field}
use sdrportal.Bindings.Parts.{read, not_nothing, has_content}
use sdrportal.Bindings.Literal.{
  attr_literal, literal_attributes, value_literal, literal_children, object_literal, in_call,
}
use sdrportal.Bindings.Conform.{a_text, Kinds, attr_kind, declared, Fits, Matches}
use sdrportal.Bindings.Conform.Access.{kind_at, get_field-Matches}
use sdrportal.Bindings.Conform.Cases.{maybe_text_cases, maybe_integer_cases, a_text_cases}
use sdrportal.Bindings.Conform.Declares.{AttrsDeclared, ShapeDeclared, schema-Declares}

-- The call returns.
abbrev pub Returns : Result Text → Type 0
Returns r = (t : Text) × (r ≡ ok t)

attr_literal-Returns :
    (level : ℕ) (kind : AttrKind) (k : Text) (v : Value)
    → Fits v (attr_kind kind)
    → Returns (attr_literal level kind k v)
unfolding attr_literal
attr_literal-Returns level plain k v fit =
    maybe_text_cases (λ w. Returns (attr_literal level plain k w)) (_, refl) (λ t. (_, refl)) v fit
attr_literal-Returns level always k v fit =
    maybe_text_cases (λ w. Returns (attr_literal level always k w)) (_, refl) (λ t. (_, refl)) v fit
attr_literal-Returns level encoded k v fit =
    maybe_text_cases (λ w. Returns (attr_literal level encoded k w)) (_, refl) (λ t. (_, refl)) v
      fit
attr_literal-Returns level Schema.integer k v fit =
    maybe_integer_cases (λ w. Returns (attr_literal level Schema.integer k w)) (_, refl)
      (λ m n. (_, refl)) v fit

pub literal_attributes-Returns :
    (level : ℕ) (ats : List Attr) (fs : Fields) (ds : Kinds)
    → Matches fs ds
    → AttrsDeclared ats ds
    → Returns (literal_attributes level ats fs)
unfolding literal_attributes
literal_attributes-Returns level [] fs ds m de = (_, refl)
literal_attributes-Returns level (attr kind key k ∷ rest) fs ds m (at, de) =
    let (v, got, fit) = get_field-Matches k (attr_kind kind) fs ds m at in
    let (t, first) = attr_literal-Returns level kind k v fit in
    let (s, others) = literal_attributes-Returns level rest fs ds m de in
    let reads : read k fs ≡ ok v = rw (read, got) refl in
    (t ++ s, rw reads (rw first (rw others refl)))

-- A class with a value: the text of the element.
abbrev pub IsValued : Shape → Type 0
IsValued structured = ⊥
IsValued mixed = ⊥
IsValued _ = Unit

value_declared :
    (s : Shape) (cs : List Child) (ds : Kinds)
    → IsValued s
    → ShapeDeclared s cs ds
    → kind_at value_of ds ≡ some a_text
value_declared structured cs ds is h = absurd is
value_declared mixed cs ds is h = absurd is
value_declared valued cs ds is h = h
value_declared valued_mixed cs ds is h = h.1
value_declared paragraph cs ds is h = h.2

reads_value : (fs : Fields) (v : Value) → get_field value_of fs ≡ some v → read value_of fs ≡ ok v
reads_value fs v got = rw (read, got) refl

text_present : (v : Value) → Fits v a_text → ok (not_nothing v) ≡ ok true
text_present v fit = a_text_cases (λ w. ok (not_nothing w) ≡ ok true) (λ t. refl) v fit

value_present :
    (s : Shape) (cs : List Child) (fs : Fields)
    → IsValued s
    → (v : Value) → Fits v a_text
    → get_field value_of fs ≡ some v
    → has_content s cs fs ≡ ok true
unfolding has_content
value_present structured cs fs is v fit got = absurd is
value_present mixed cs fs is v fit got = absurd is
value_present valued cs fs is v fit got = rw (reads_value fs v got) (text_present v fit)
value_present valued_mixed cs fs is v fit got = rw (reads_value fs v got) (text_present v fit)
value_present paragraph cs fs is v fit got = rw (reads_value fs v got) (text_present v fit)

text_written : (level : ℕ) (v : Value) → Fits v a_text → Returns (value_literal level v)
text_written level v fit =
    a_text_cases (λ w. Returns (value_literal level w)) (λ t. (_, refl)) v fit

value_written :
    (inside : Option Text → Text → ℕ → Result Text) (level : ℕ) (s : Schema) (fs : Fields)
    → IsValued s.shape
    → (v : Value) → Fits v a_text
    → get_field value_of fs ≡ some v
    → Returns (literal_children inside level s fs)
unfolding literal_children
value_written inside level s fs is v fit got = at s.shape refl is
  where
    value : Returns (read value_of fs >>= value_literal level)
    value = rw (reads_value fs v got) (text_written level v fit)

    at : (x : Shape) → s.shape ≡ x → IsValued x → Returns (literal_children inside level s fs)
    at structured e is = absurd is
    at mixed e is = absurd is
    at valued e is = rw e value
    at valued_mixed e is = rw e value
    at paragraph e is = rw e value

-- The value of a class with a value is a text, and so there is something to write.
pub object_literal-value :
    (inside : Option Text → Text → ℕ → Result Text) (level : ℕ) (c : Class) (fs : Fields)
    → Matches fs (declared (schema c))
    → IsValued (schema c).shape
    → Returns (object_literal inside level (schema c) fs)
unfolding object_literal
object_literal-value inside level c fs m is =
    let s = schema c in
    let (t, attrs) =
      literal_attributes-Returns (suc level) s.attributes fs (declared s) m (schema-Declares c).0 in
    let (v, got, fit) =
      get_field-Matches value_of a_text fs (declared s) m
        (value_declared s.shape s.children (declared s) is (schema-Declares c).2) in
    let there = value_present s.shape s.children fs is v fit got in
    let (u, written) = value_written inside (suc level) s fs is v fit got in
    (t ++ u, rw attrs (rw there (rw written refl)))

pub in_call-err :
    (opening : Option Text) (level : ℕ)
    → in_call opening level (err attribute_error) ≡ err attribute_error
in_call-err none level = refl
in_call-err (some o) level = refl

pub in_call-Returns :
    (opening : Option Text) (level : ℕ) (r : Result Text)
    → Returns r
    → Returns (in_call opening level r)
in_call-Returns none level r h = h
in_call-Returns (some o) level r (t, e) =
    subst (λ x. Returns (in_call (some o) level x)) (sym e) (_, refl)
