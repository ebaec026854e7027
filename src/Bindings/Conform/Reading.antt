-- ===== src/Bindings/Conform/Reading.antt =====
-- About what `build` reads for an element itself: the text of its children and its attributes.
use sdrportal.Prelude.{
  ℕ, Text, Option, ◌++◌, ◌==◌, none, some, List, [], ◌∷◌, Bool, true, false, if◌then◌else◌, ◌≡◌,
}
use sdrportal.Dom.{
  Attrs, Node, element, comment, cdata, Nodes, nil, cons, node_value, get, local_name,
}
use sdrportal.Dom
use sdrportal.Str.{strip}
use sdrportal.Index.Build.{concat_values}
use sdrportal.Bindings.Schema.{AttrKind, plain, encoded, integer, always, Attr, attr}
use sdrportal.Bindings.Value.{Value, Fields}
use sdrportal.Bindings.Build.{
  signed, some_digits, after_sign, parse_int, number, attr_value, set_attr, build_attributes,
}
use sdrportal.Bindings.Conform.{Kinds, attr_kind, maybe_integer, Fits, Matches}
use sdrportal.Bindings.Conform.Access.{kind_at, set_field-Matches}
use sdrportal.Bindings.Conform.Declares.{AttrsDeclared}
use sdrportal.Bindings.Conform.Outcome.{
  Outcome, good, type_fault, value_fault, Outcome-map, Outcome-bind,
}
use sdrportal.Bindings.Conform.Faulty.{HasElement, BadNumber, BadAttrs}
use sdrportal.Prelude.{refl, inl, inr}

pub concat_values-Outcome :
    (acc : Text) (ns : Nodes)
    → Outcome {0, 0} (HasElement ns) (λ t. Unit {0}) (concat_values acc ns)
unfolding concat_values
concat_values-Outcome acc nil = good tt
concat_values-Outcome acc (cons (element n ats cs) ns) = type_fault tt
concat_values-Outcome acc (cons (Dom.text t) ns) = concat_values-Outcome (acc ++ t) ns
concat_values-Outcome acc (cons (comment t) ns) = concat_values-Outcome (acc ++ t) ns
concat_values-Outcome acc (cons (cdata t) ns) = concat_values-Outcome (acc ++ t) ns

-- What `int` gives is an integer.
abbrev IsNumber : Option Value → Type 0
IsNumber none = Unit
IsNumber (some v) = Fits v maybe_integer

IsNumber-if :
    (b : Bool) (x y : Option Value) → IsNumber x → IsNumber y → IsNumber (if b then x else y)
IsNumber-if true x y hx hy = hx
IsNumber-if false x y hx hy = hy

signed_integer : (minus : Bool) (n : Option ℕ) → IsNumber (signed minus n)
unfolding Fits
signed_integer minus none = tt
signed_integer minus (some n) = tt

after_sign_integer : (s : Text) → IsNumber (after_sign s)
after_sign_integer [] = tt
after_sign_integer (c ∷ s) = IsNumber-if (c == 45) _ _ (signed_integer true (some_digits s)) (
    IsNumber-if (c == 43) _ _ (signed_integer false (some_digits s))
      (signed_integer false (some_digits (c ∷ s))))

parse_int_integer : (s : Text) → IsNumber (parse_int s)
unfolding parse_int
parse_int_integer s = after_sign_integer (strip s)

number-Outcome :
    (v : Option Value) → IsNumber v → Outcome (v ≡ none) (λ w. Fits w maybe_integer) (number v)
number-Outcome none i = value_fault refl
number-Outcome (some v) i = good i

attr_value-Outcome :
    (kind : AttrKind) (v : Text)
    → Outcome (BadNumber kind (some v)) (λ w. Fits w (attr_kind kind)) (attr_value kind v)
unfolding Fits
attr_value-Outcome plain v = good tt
attr_value-Outcome encoded v = good tt
attr_value-Outcome always v = good tt
attr_value-Outcome integer v = number-Outcome (parse_int v) (parse_int_integer v)

set_attr-Outcome :
    (kind : AttrKind) (k : Text) (v : Option Text) (fs : Fields) (ds : Kinds)
    → Matches fs ds
    → kind_at k ds ≡ some (attr_kind kind)
    → Outcome (BadNumber kind v) (λ gs. Matches gs ds) (set_attr kind k v fs)
set_attr-Outcome kind k none fs ds m at = good m
set_attr-Outcome kind k (some v) fs ds m at =
    Outcome-bind (attr_value-Outcome kind v)
      (λ w fits. good (set_field-Matches k (attr_kind kind) w fs ds m at fits))

pub build_attributes-Outcome :
    (ats : List Attr) (given : Attrs) (fs : Fields) (ds : Kinds)
    → AttrsDeclared ats ds
    → Matches fs ds
    → Outcome (BadAttrs ats given) (λ gs. Matches gs ds) (build_attributes ats given fs)
unfolding build_attributes
build_attributes-Outcome [] given fs ds de m = good m
build_attributes-Outcome (attr kind key k ∷ rest) given fs ds (at, de) m =
    Outcome-bind (Outcome-map inl (set_attr-Outcome kind k (get key given) fs ds m at))
      (λ gs m'. Outcome-map inr (build_attributes-Outcome rest given gs ds de m'))
