-- ===== src/Bindings/Conform/ObjectText.antt =====
-- About `export` of one object that conforms to its schema, with the objects inside as a parameter.
use sdrportal.Exc.{Result, ◌>>=◌}
use sdrportal.Prelude.{
  ℕ, suc, Text, some, List, [], ◌∷◌, Bool, true, false, if◌then◌else◌, ◌≡◌, refl,
}
use sdrportal.Bindings.Classes.{Class}
use sdrportal.Bindings.Schema.{
  ChildKind, text, texts, simple, object, objects, title, complex, listed, Child, Shape, structured,
  valued, mixed, valued_mixed, paragraph, Schema,
}
use sdrportal.Bindings.Value.{Value, nothing, Fields, value_of, content_}
use sdrportal.Bindings.Parts.{
  read, export_attributes, has_children, has_content, present, write_value,
}
use sdrportal.Bindings.Export.{
  field_text, one_line, lines, is_inline, children_text, export_children, object_text,
}
use sdrportal.Bindings.Conform.{
  FieldKind, Kinds, a_text, many_texts, maybe, many, titled, contents, declared, Matches,
}
use sdrportal.Bindings.Conform.Access.{kind_at}
use sdrportal.Bindings.Conform.Cases.{a_text_cases, many_texts_cases, titled_cases}
use sdrportal.Bindings.Conform.Declares.{ChildDeclared, ChildrenDeclared, ShapeDeclared, Declares}
use sdrportal.Bindings.Conform.Written.{
  Written-bind, Written-read, export_attributes-Written, text_line-Written, text_lines-Written,
  Written, written,
}

-- The field kinds that hold objects alone.
abbrev pub HoldsObjects : FieldKind → Type 0
HoldsObjects (maybe c) = Unit
HoldsObjects (many c) = Unit
HoldsObjects (contents cs) = Unit
HoldsObjects _ = ⊥

-- A child of a class without text: none that stands in a content.
abbrev Structural : ChildKind → Type 0
Structural simple = ⊥
Structural (complex c) = ⊥
Structural (listed c) = ⊥
Structural _ = Unit

abbrev AllStructural : List Child → Type 0
AllStructural [] = Unit
AllStructural (c ∷ cs) = Structural c.kind × AllStructural cs

-- The same for a class that asks whether it has content.
abbrev AllFit : Shape → List Child → Type 0
AllFit structured cs = AllStructural cs
AllFit mixed cs = ⊥
AllFit _ cs = Unit

abbrev pub WellShaped : Shape → List Child → Type 0
WellShaped structured cs = AllStructural cs
WellShaped _ cs = Unit

module _ (repr : Class → Fields → Text) (inside : Text → ℕ → Text → Result Text) (fs : Fields)
    (ds : Kinds) (m : Matches fs ds)
    (inner : (k : Text) (κ : FieldKind)
      → kind_at k ds ≡ some κ
      → HoldsObjects κ
      → (level : ℕ) (tag : Text) → Written (inside k level tag)) where
  field_text-Written :
      (level : ℕ) (kind : ChildKind) (k tag : Text) (all : List Child)
      → Structural kind
      → ChildDeclared kind k all ds
      → Written (read k fs >>= λ v. field_text repr inside level kind k tag v)
  unfolding field_text
  field_text-Written level text k tag all st at =
      Written-read k a_text fs ds _ m at
        (a_text_cases (λ v. Written (one_line repr level tag v)) (text_line-Written level tag))
  field_text-Written level (title c) k tag all st at = Written-read k (titled c) fs ds _ m at (
      titled_cases (λ v. Written (one_line repr level tag v)) c written
        (text_line-Written level tag) (λ d gs. text_line-Written level tag (repr d gs)))
  field_text-Written level texts k tag all st at =
      Written-read k many_texts fs ds _ m at
        (many_texts_cases (λ v. Written (lines level tag v)) (text_lines-Written level tag))
  field_text-Written level (object c) k tag all st at =
      Written-read k (maybe c) fs ds _ m at (λ v fit. inner k (maybe c) at tt level tag)
  field_text-Written level (objects c) k tag all st at =
      Written-read k (many c) fs ds _ m at (λ v fit. inner k (many c) at tt level tag)
  field_text-Written level simple k tag all st at = absurd st
  field_text-Written level (complex c) k tag all st at = absurd st
  field_text-Written level (listed c) k tag all st at = absurd st

  field_read :
      {B : Type 0} (f : Value → Result B) (kind : ChildKind) (k : Text) (all : List Child)
      → Structural kind
      → ChildDeclared kind k all ds
      → ((v : Value) → Written (f v))
      → Written (read k fs >>= f)
  field_read f text k all st at go = Written-read k a_text fs ds f m at (λ v fit. go v)
  field_read f texts k all st at go = Written-read k many_texts fs ds f m at (λ v fit. go v)
  field_read f (object c) k all st at go = Written-read k (maybe c) fs ds f m at (λ v fit. go v)
  field_read f (objects c) k all st at go = Written-read k (many c) fs ds f m at (λ v fit. go v)
  field_read f (title c) k all st at go = Written-read k (titled c) fs ds f m at (λ v fit. go v)
  field_read f simple k all st at go = absurd st
  field_read f (complex c) k all st at go = absurd st
  field_read f (listed c) k all st at go = absurd st

  present-Written : (v : Value) (r : Result Bool) → Written r → Written (present v r)
  present-Written nothing r w = w
  present-Written v r w = written

  has_children-Written :
      (all cs : List Child)
      → AllStructural cs
      → ChildrenDeclared all cs ds
      → Written (has_children cs fs)
  unfolding has_children
  has_children-Written all [] st de = written
  has_children-Written all (c ∷ cs) (s, st) (at, de) =
      field_read (λ v. present v (has_children cs fs)) c.kind c.field all s at
        (λ v. present-Written v (has_children cs fs) (has_children-Written all cs st de))

  children_text-Written :
      (level : ℕ) (all cs : List Child)
      → AllStructural cs
      → ChildrenDeclared all cs ds
      → Written (children_text repr inside level cs fs)
  unfolding children_text
  children_text-Written level all [] st de = written
  children_text-Written level all (c ∷ cs) (s, st) (at, de) =
      Written-bind (field_text-Written level c.kind c.field c.tag all s at)
        (λ first. Written-bind (children_text-Written level all cs st de) (λ rest. written))

  value-Written : kind_at value_of ds ≡ some a_text → Written (read value_of fs >>= write_value)
  value-Written at =
      Written-read value_of a_text fs ds write_value m at
        (a_text_cases (λ v. Written (write_value v)) (λ t. written))

  has_content-Written :
      (s : Shape) (cs : List Child)
      → AllFit s cs
      → ChildrenDeclared cs cs ds
      → ShapeDeclared s cs ds
      → Written (has_content s cs fs)
  unfolding has_content
  has_content-Written structured cs st dc de = has_children-Written cs cs st dc
  has_content-Written mixed cs st dc de = absurd st
  has_content-Written valued cs st dc de =
      Written-read value_of a_text fs ds _ m de (λ v fit. written)
  has_content-Written valued_mixed cs st dc (dx, de) =
      Written-read value_of a_text fs ds _ m de (λ v fit. written)
  has_content-Written paragraph cs st dc (dx, dy, de) =
      Written-read value_of a_text fs ds _ m de (λ v fit. written)

  export_children-Written :
      (level : ℕ) (s : Shape) (cs : List Child)
      → WellShaped s cs
      → ChildrenDeclared cs cs ds
      → ShapeDeclared s cs ds
      → Written (export_children repr inside level s cs fs)
  unfolding export_children
  export_children-Written level structured cs st dc de = children_text-Written level cs cs st dc
  export_children-Written level mixed cs st dc de = inner content_ (contents cs) de tt level []
  export_children-Written level valued cs st dc de = value-Written de
  export_children-Written level valued_mixed cs st dc (dx, de) = value-Written de
  export_children-Written level paragraph cs st dc (dx, dy, de) = value-Written de

Written-if {ℓ} :
    {A : Type ℓ} (b : Bool) (x y : Result A)
    → (b ≡ true → Written x)
    → (b ≡ false → Written y)
    → Written (if b then x else y)
Written-if true x y hx hy = hx refl
Written-if false x y hx hy = hy refl

framed_shape : (s : Shape) (cs : List Child) → is_inline s ≡ false → WellShaped s cs → AllFit s cs
framed_shape structured cs e st = st
framed_shape valued cs e st = tt
framed_shape mixed cs e st = cc
framed_shape valued_mixed cs e st = tt
framed_shape paragraph cs e st = tt

module _ (repr : Class → Fields → Text) (inside : Text → ℕ → Text → Result Text) (s : Schema)
    (fs : Fields) (m : Matches fs (declared s)) (de : Declares s)
    (ws : WellShaped s.shape s.children)
    (inner : (k : Text) (κ : FieldKind)
      → kind_at k (declared s) ≡ some κ
      → HoldsObjects κ
      → (level : ℕ) (tag : Text) → Written (inside k level tag)) where
  children-Written : (level : ℕ) → Written (export_children repr inside level s.shape s.children fs)
  children-Written level =
      export_children-Written repr inside fs (declared s) m inner level s.shape s.children ws de.1
        de.2

  attributes-Written : Written (export_attributes s.attributes fs)
  attributes-Written = export_attributes-Written s.attributes fs (declared s) m de.0

  pub object_text-Written :
      (level : ℕ) (name : Text) → Written (object_text repr inside level name s fs)
  unfolding object_text
  object_text-Written level name =
      Written-if (is_inline s.shape) _ _
        (λ e.
          Written-bind attributes-Written
            (λ attrs. Written-bind (children-Written (suc level)) (λ content. written)))
        (λ e. Written-bind attributes-Written (λ attrs.
          Written-bind
            (has_content-Written repr inside fs (declared s) m inner s.shape s.children
              (framed_shape s.shape s.children e ws) de.1 de.2)
            (λ some_content.
              Written-bind
                (Written-if some_content _ _
                  (λ e1. Written-bind (children-Written (suc level)) (λ t. written))
                  (λ e1. written))
                (λ content. written))))
