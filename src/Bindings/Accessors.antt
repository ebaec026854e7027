-- ===== src/Bindings/Accessors.antt =====
-- The methods of compoundsuper.py that read or change one field of an object: `get_…`, `set_…`,
-- `add_…` and `insert_…`, of any class and field.
use sdrportal.Prelude.{
  ℕ, ◌≤◌, ◌≡◌, refl, ap, ◌∙◌, Text, some, List, [], ◌∷◌, ◌++◌, length, ◌⊎◌, inl, inr,
}
use sdrportal.Exc.{Result, ok, err, attribute_error, type_error, index_error, ◌>>=◌}
use sdrportal.Index.Accessors.{set_item, set_item-Replaces}
use sdrportal.Bindings.Value.{
  Value, array, instance_of, container, Values, nil, cons, Fields, get_field, set_field,
  append_field,
}
use sdrportal.Bindings.Parts.{read}

unfoldable pub items : Values → List Value
items nil = []
items (cons v vs) = v ∷ items vs

unfoldable pub values : List Value → Values
values [] = nil
values (v ∷ vs) = cons v (values vs)

-- `get_…`
unfoldable pub get_child : Text → Fields → Result Value
unfolding get_field
get_child k fs = read k fs

-- `set_…`
unfoldable pub set_child : Text → Value → Fields → Fields
unfolding set_field
set_child k v fs = set_field k v fs

-- `add_…`
unfoldable pub add_child : Text → Value → Fields → Result Fields
unfolding append_field
add_child k v fs = append_field k v fs

-- `insert_…`, which assigns to the item.
abbrev assign_item : ℕ → Value → Value → Result Value
assign_item i v (array vs) = do ws ← set_item i v (items vs); ok (array (values ws))
assign_item i v (instance_of c fs) = err attribute_error
assign_item i v (container cat name w) = err attribute_error
assign_item i v _ = err type_error

unfoldable pub insert_child : Text → ℕ → Value → Fields → Result Fields
unfolding get_field set_field set_item items values
insert_child k i v fs = do old ← read k fs; new ← assign_item i v old; ok (set_field k new fs)

-- `insert_…` of a field with a list inserts nothing: the value replaces the item at the index, and the
-- items before and after it stay where they are; and an index out of range raises IndexError.
pub insert_child-overwrites :
    (k : Text) (i : ℕ) (v : Value) (fs : Fields) (vs : Values)
    → get_field k fs ≡ some (array vs)
    → ((before : List Value) × (old : Value) × (after : List Value) × (items vs
          ≡ before ++ old ∷ after)
        × (length before ≡ i)
        × (insert_child k i v fs ≡ ok (set_field k (array (values (before ++ v ∷ after))) fs)))
      ⊎ ((length (items vs) ≤ i) × (insert_child k i v fs ≡ err index_error))
unfolding insert_child
insert_child-overwrites k i v fs vs there =
    let reads : read k fs ≡ ok (array vs) = rw (there, read) refl in
    let inserts : insert_child k i v fs
        ≡ (assign_item i v (array vs) >>= λ new. ok (set_field k new fs)) =
      ap (λ r. r >>= λ old. assign_item i v old >>= λ new. ok (set_field k new fs)) reads in
    elim (set_item-Replaces i v (items vs)) [
      | inl (before, old, after, split, count, replaced) ↦
          inl (before, old, after, split, count, inserts ∙ rw replaced refl)
      | inr (short, out) ↦ inr (short, inserts ∙ rw out refl)
    ]
