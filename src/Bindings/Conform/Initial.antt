-- ===== src/Bindings/Conform/Initial.antt =====
-- About the fields of a new object.
use sdrportal.Prelude.{Text, List, [], ◌∷◌, refl}
use sdrportal.Bindings.Schema.{
  AttrKind, plain, encoded, integer, always, Attr, attr, ChildKind, text, texts, simple, object,
  objects, title, complex, listed, Child, Shape, structured, valued, mixed, valued_mixed, paragraph,
  Schema,
}
use sdrportal.Bindings.Value.{Fields, shape_fields, child_field, child_fields, attr_fields, initial}
use sdrportal.Bindings.Conform.{
  Kinds, shape_kinds, child_kind, child_kinds, attr_kind, attr_kinds, declared, IsOptional, Matches,
}

shape_fields-Matches : (s : Shape) (cs : List Child) → Matches (shape_fields s) (shape_kinds s cs)
unfolding shape_fields Matches
shape_fields-Matches structured cs = tt
shape_fields-Matches valued cs = (refl, tt, tt)
shape_fields-Matches mixed cs = (refl, (tt, tt), tt)
shape_fields-Matches valued_mixed cs = (refl, (tt, tt), (refl, tt, tt))
shape_fields-Matches paragraph cs = (refl, (tt, tt), (refl, (tt, tt), (refl, tt, tt)))

child_field-Matches :
    (c : ChildKind) (k : Text) (fs : Fields) (ds : Kinds)
    → Matches fs ds
    → Matches (child_field c k fs) (child_kind c k ds)
unfolding Matches
child_field-Matches text k fs ds m = (refl, tt, m)
child_field-Matches texts k fs ds m = (refl, (tt, tt), m)
child_field-Matches (object c) k fs ds m = (refl, tt, m)
child_field-Matches (objects c) k fs ds m = (refl, (tt, tt), m)
child_field-Matches (title c) k fs ds m = (refl, tt, m)
child_field-Matches simple k fs ds m = m
child_field-Matches (complex c) k fs ds m = m
child_field-Matches (listed c) k fs ds m = m

child_fields-Matches :
    (cs : List Child) (fs : Fields) (ds : Kinds)
    → Matches fs ds
    → Matches (child_fields cs fs) (child_kinds cs ds)
unfolding child_fields
child_fields-Matches [] fs ds m = m
child_fields-Matches (c ∷ cs) fs ds m =
    child_field-Matches c.kind c.field (child_fields cs fs) (child_kinds cs ds)
      (child_fields-Matches cs fs ds m)

attr_kind-IsOptional : (kind : AttrKind) → IsOptional (attr_kind kind)
attr_kind-IsOptional plain = tt
attr_kind-IsOptional encoded = tt
attr_kind-IsOptional integer = tt
attr_kind-IsOptional always = tt

attr_fields-Matches :
    (ats : List Attr) (fs : Fields) (ds : Kinds)
    → Matches fs ds
    → Matches (attr_fields ats fs) (attr_kinds ats ds)
unfolding attr_fields Matches
attr_fields-Matches [] fs ds m = m
attr_fields-Matches (attr kind key k ∷ rest) fs ds m =
    (refl, attr_kind-IsOptional kind, attr_fields-Matches rest fs ds m)

pub initial-Matches : (s : Schema) → Matches (initial s) (declared s)
unfolding initial declared
initial-Matches s =
    attr_fields-Matches s.attributes (child_fields s.children (shape_fields s.shape))
      (child_kinds s.children (shape_kinds s.shape s.children))
      (child_fields-Matches s.children (shape_fields s.shape) (shape_kinds s.shape s.children)
        (shape_fields-Matches s.shape s.children))
