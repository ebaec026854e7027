-- ===== src/Bindings/Constructors/Laws.antt =====
-- About the objects that `factory` makes.
use sdrportal.Prelude.{codes, ◌≡◌, refl, Text, [], text_eq, arith}
use sdrportal.Exc.{ok}
use sdrportal.Bindings.Classes.{Class}
use sdrportal.Bindings.Tables.{schema}
use sdrportal.Bindings.Value.{
  Value, string, array, nil, content_, content, value_of, Fields, end, field, get_field, set_field,
  initial,
}
use sdrportal.Bindings.Constructors.Factory.{factory, reset_value}

-- Two objects have the same fields.
abbrev pub SameFields : Fields → Fields → Type 0
SameFields fs gs = (k : Text) → get_field k fs ≡ get_field k gs

-- One value under three keys, in two orders.
rotate :
    (a b c : Text) (v : Value) (fs : Fields)
    → SameFields (field a v (field b v (field c v fs))) (field b v (field c v (field a v fs)))
unfolding get_field
rotate a b c v fs k = ground arith

-- `factory`, called without arguments as `buildChildren` and `parse` call it, gives for each class an
-- object that has, once `build` has emptied its `valueOf_`, exactly the fields that `build` starts
-- from according to the schema of the class.
pub factory-initial :
    (c : Class)
    → (fs : Fields) × (factory c [] ≡ ok fs)
      × SameFields (reset_value (schema c).shape fs) (initial (schema c))
unfolding factory schema initial get_field text_eq set_field
factory-initial Class.doc_para_type = (
  _,
  refl,
  λ k.
      rotate content_ (codes "parameterlist") (codes "simplesects") (array nil)
        (field content (array nil) (field value_of (string []) end)) k,
)
factory-initial _ = (_, refl, λ k. refl)
