-- ===== src/Index/Literal/Laws.antt =====
-- When an index can be written as Python source.
use sdrportal.Prelude.{
  ℕ, suc, codes, ◌≡◌, refl, Text, Option, none, some, List, [], ◌∷◌, ◌++◌, true, arith, All,
  Bool-cases, inl, inr, ◌⊎◌,
}
use sdrportal.Exc.{Result, ok, err, attribute_error, unicode_error, ◌>>=◌}
use sdrportal.Str.{replace}
use sdrportal.Quote.{quote_python, enclose, is_ascii, encode_ascii}
use sdrportal.Quote.Ascii.{is_ascii-append}
use sdrportal.Index.{MemberType, CompoundType, DoxygenType}
use sdrportal.Index.Export.{show_indent}
use sdrportal.Index.Literal.{
  name_line, member_literal_children, member_literal, members_literal, compound_literal,
  compounds_literal, doxygen_literal,
}

is_ascii-escape : (s : Text) → is_ascii (replace 34 (92 ∷ 34 ∷ []) s) ≡ is_ascii s
unfolding is_ascii replace
is_ascii-escape [] = refl
is_ascii-escape (c ∷ s) = ground (arith, is_ascii-escape s)

is_ascii-enclose : (q s : Text) → is_ascii q ≡ true → is_ascii (enclose q s) ≡ is_ascii s
is_ascii-enclose q s h = ground (arith, is_ascii-append q (s ++ q), is_ascii-append s q)

three_double : is_ascii (34 ∷ 34 ∷ 34 ∷ []) ≡ true
unfolding is_ascii
three_double = refl

three_single : is_ascii (39 ∷ 39 ∷ 39 ∷ []) ≡ true
unfolding is_ascii
three_single = refl

one_double : is_ascii (34 ∷ []) ≡ true
unfolding is_ascii
one_double = refl

one_single : is_ascii (39 ∷ []) ≡ true
unfolding is_ascii
one_single = refl

is_ascii-quote_python : (s : Text) → is_ascii (quote_python s) ≡ is_ascii s
unfolding quote_python
is_ascii-quote_python s =
    let t : Text = replace 34 (92 ∷ 34 ∷ []) s in
    ground (
      arith,
      is_ascii-escape s,
      is_ascii-enclose (39 ∷ []) s one_single,
      is_ascii-enclose (39 ∷ 39 ∷ 39 ∷ []) s three_single,
      is_ascii-enclose (34 ∷ []) s one_double,
      is_ascii-enclose (34 ∷ 34 ∷ 34 ∷ []) s three_double,
      is_ascii-enclose (34 ∷ []) t one_double,
      is_ascii-enclose (34 ∷ 34 ∷ 34 ∷ []) t three_double,
    )

-- The name, if it is given, is ASCII.
abbrev pub FitsIfGiven : Option Text → Type 0
FitsIfGiven none = Unit
FitsIfGiven (some n) = is_ascii n ≡ true

abbrev pub MemberFits : MemberType → Type 0
MemberFits m = FitsIfGiven m.name

abbrev pub NameFits : Option Text → Type 0
NameFits none = ⊥
NameFits (some n) = is_ascii n ≡ true

-- A compound has a name, and all names are ASCII.
abbrev pub CompoundFits : CompoundType → Type 0
CompoundFits c = NameFits c.name × All MemberFits c.member

-- A text if the condition holds; otherwise AttributeError or UnicodeError.
abbrev pub TextExactlyIf : Type 0 → Result Text → Type 0
TextExactlyIf P r =
    (P × (t : Text) × (r ≡ ok t)) ⊎ ((¬ P) × ((r ≡ err attribute_error) ⊎ (r ≡ err unicode_error)))

name_line-cases :
    (level : ℕ) (name : Option Text) → TextExactlyIf (NameFits name) (name_line level name)
unfolding name_line encode_ascii
name_line-cases level none = inr (λ h. h, inl refl)
name_line-cases level (some n) = elim (Bool-cases (is_ascii n)) [
  | inl e ↦ inl (
    e,
    show_indent level ++ (codes "name=" ++ (quote_python n ++ codes ",\n")),
    rw (is_ascii-quote_python n, e),
  )
  | inr e ↦ inr (λ h. cc, inr (rw (is_ascii-quote_python n, e)))
]

TextExactlyIf-then :
    {P : Type 0} (r : Result Text) (f : Text → Text)
    → TextExactlyIf P r
    → TextExactlyIf P (r >>= λ t. ok (f t))
TextExactlyIf-then r f (inl (p, t, e)) = inl (p, f t, rw e)
TextExactlyIf-then r f (inr (miss, inl e)) = inr (miss, inl (rw e))
TextExactlyIf-then r f (inr (miss, inr e)) = inr (miss, inr (rw e))

TextExactlyIf-both :
    {P Q : Type 0} (r s : Result Text) (f : Text → Text → Text)
    → TextExactlyIf P r
    → TextExactlyIf Q s
    → TextExactlyIf (P × Q) (r >>= λ t. s >>= λ u. ok (f t u))
TextExactlyIf-both r s f (inl (p, t, e)) (inl (q, u, d)) = inl ((p, q), f t u, rw (e, d))
TextExactlyIf-both r s f (inl (p, t, e)) (inr (miss, inl d)) = inr (λ h. miss h.1, inl (rw (e, d)))
TextExactlyIf-both r s f (inl (p, t, e)) (inr (miss, inr d)) = inr (λ h. miss h.1, inr (rw (e, d)))
TextExactlyIf-both r s f (inr (miss, inl e)) k = inr (λ h. miss h.0, inl (rw e))
TextExactlyIf-both r s f (inr (miss, inr e)) k = inr (λ h. miss h.0, inr (rw e))

member_children-cases :
    (level : ℕ) (name : Option Text)
    → TextExactlyIf (FitsIfGiven name) (member_literal_children level name)
unfolding member_literal_children
member_children-cases level none = inl (tt, [], refl)
member_children-cases level (some n) = name_line-cases level (some n)

member_literal-cases :
    (level : ℕ) (m : MemberType) → TextExactlyIf (MemberFits m) (member_literal level m)
unfolding member_literal
member_literal-cases level m =
    TextExactlyIf-then (member_literal_children (suc level) m.name) _
      (member_children-cases (suc level) m.name)

members_literal-cases :
    (level : ℕ) (ms : List MemberType)
    → TextExactlyIf (All MemberFits ms) (members_literal level ms)
unfolding members_literal
members_literal-cases level [] = inl (tt, [], refl)
members_literal-cases level (m ∷ ms) =
    TextExactlyIf-both (member_literal level m) (members_literal level ms) _
      (member_literal-cases level m) (members_literal-cases level ms)

compound_literal-cases :
    (level : ℕ) (c : CompoundType) → TextExactlyIf (CompoundFits c) (compound_literal level c)
unfolding compound_literal
compound_literal-cases level c =
    TextExactlyIf-both (name_line (suc level) c.name) (members_literal (suc (suc level)) c.member) _
      (name_line-cases (suc level) c.name) (members_literal-cases (suc (suc level)) c.member)

compounds_literal-cases :
    (level : ℕ) (cs : List CompoundType)
    → TextExactlyIf (All CompoundFits cs) (compounds_literal level cs)
unfolding compounds_literal
compounds_literal-cases level [] = inl (tt, [], refl)
compounds_literal-cases level (c ∷ cs) =
    TextExactlyIf-both (compound_literal level c) (compounds_literal level cs) _
      (compound_literal-cases level c) (compounds_literal-cases level cs)

-- An index is written as Python source exactly if every compound has a name and all names of
-- compounds and members are ASCII; otherwise AttributeError or UnicodeError is raised.
pub doxygen_literal-cases :
    (level : ℕ) (d : DoxygenType)
    → (All CompoundFits d.compound × (t : Text) × (doxygen_literal level d ≡ ok t))
      ⊎ ((¬ All CompoundFits d.compound)
          × ((doxygen_literal level d ≡ err attribute_error)
              ⊎ (doxygen_literal level d ≡ err unicode_error)))
unfolding doxygen_literal
doxygen_literal-cases level d =
    TextExactlyIf-then (compounds_literal (suc (suc level)) d.compound) _
      (compounds_literal-cases (suc (suc level)) d.compound)
