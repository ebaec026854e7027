-- ===== src/Bindings/Constructors/Tests.antt =====
-- What `factory` makes of some classes, and an item that is assigned.
use sdrportal.Prelude.{codes, List, [], ◌∷◌, ◌++◌, ◌≡◌, ◌≤◌, ◌⊎◌, refl, length, text_eq}
use sdrportal.Exc.{ok, err, index_error}
use sdrportal.Bindings.Accessors.{items, values, insert_child, insert_child-overwrites}
use sdrportal.Bindings.Classes.{Class}
use sdrportal.Bindings.Tables.{schema}
use sdrportal.Bindings.Value.{
  Fields, end, field, get_field, set_field, Value, Values, nil, cons, array, string, initial,
}
use sdrportal.Bindings.Constructors.Factory.{factory, reset_value}
use sdrportal.Bindings.Constructors.Laws.{SameFields, factory-initial}
use sdrportal.Bindings.Constructors.Lost.{factory-loses}

factory-initial_example :
    (fs : Fields) × (factory Class.doc_para_type [] ≡ ok fs)
    × SameFields
        (reset_value (schema Class.doc_para_type).shape fs)
        (initial (schema Class.doc_para_type))
factory-initial_example = factory-initial Class.doc_para_type

factory-loses_example :
    factory Class.reimplement_type (string (codes "class_a") ∷ [])
    ≡ factory Class.reimplement_type []
unfolding schema
factory-loses_example =
    factory-loses Class.reimplement_type (string (codes "class_a") ∷ []) refl refl

abbrev two_members : Values
two_members = cons (string (codes "a")) (cons (string (codes "b")) nil)

abbrev list_fields : Fields
list_fields = field (codes "member") (array two_members) end

-- The index of the end of the list, at which Python's own `insert` would append.
insert_child-overwrites_example :
    ((before : List Value) × (old : Value) × (after : List Value) × (items two_members
        ≡ before ++ old ∷ after)
      × (length before ≡ 2)
      × (insert_child (codes "member") 2 (string (codes "c")) list_fields
          ≡ ok (
              set_field
                (codes "member")
                (array (values (before ++ string (codes "c") ∷ after)))
                list_fields)))
    ⊎ ((length (items two_members) ≤ 2)
        × (insert_child (codes "member") 2 (string (codes "c")) list_fields ≡ err index_error))
unfolding get_field text_eq
insert_child-overwrites_example =
    insert_child-overwrites (codes "member") 2 (string (codes "c")) list_fields two_members refl
