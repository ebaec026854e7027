-- ===== src/Index/Accessors.antt =====
-- The methods of indexsuper.py that change one field of an object: `set_…`, `add_…` and `insert_…`.
use sdrportal.Prelude.{
  ℕ, zero, suc, ◌≤◌, ◌≡◌, refl, ap, Text, Option, List, [], ◌∷◌, ◌++◌, length, ◌⊎◌, inl, inr, arith,
}
use sdrportal.Exc.{Result, ok, err, index_error, ◌>>=◌}
use sdrportal.Index.{MemberType, CompoundType, DoxygenType}

-- `xs[index] = value`, for an index that is not negative.
unfoldable pub set_item {ℓ} : {A : Type ℓ} → ℕ → A → List A → Result (List A)
set_item i v [] = err index_error
set_item zero v (x ∷ xs) = ok (v ∷ xs)
set_item (suc i) v (x ∷ xs) = do ys ← set_item i v xs; ok (x ∷ ys)

-- The value replaces the one at the index, or the index is out of range.
abbrev pub Replaces {ℓ} : {A : Type ℓ} → ℕ → A → List A → Result (List A) → Type ℓ
Replaces {A = A} i v xs r =
    ((before : List A) × (old : A) × (after : List A) × (xs ≡ before ++ old ∷ after)
      × (length before ≡ i)
      × (r ≡ ok (before ++ v ∷ after)))
    ⊎ ((length xs ≤ i) × (r ≡ err index_error))

pub set_item-Replaces {ℓ} :
    {A : Type ℓ} (i : ℕ) (v : A) (xs : List A) → Replaces i v xs (set_item i v xs)
unfolding set_item
set_item-Replaces i v [] = inr ((omega arith), refl)
set_item-Replaces zero v (x ∷ xs) = inl ([], x, xs, refl, refl, refl)
set_item-Replaces (suc i) v (x ∷ xs) = elim (set_item-Replaces i v xs) [
  | inl (before, old, after, split, count, replaced) ↦
      inl (x ∷ before, old, after, ap (λ l. x ∷ l) split, ap suc count, rw replaced refl)
  | inr (short, out) ↦ inr ((omega arith), rw out refl)
]

-- The fields of DoxygenType.
abbrev pub set_version : Option Text → DoxygenType → DoxygenType
set_version v d = record d { version = v }

abbrev pub set_compounds : List CompoundType → DoxygenType → DoxygenType
set_compounds cs d = record d { compound = cs }

abbrev pub add_compound : CompoundType → DoxygenType → DoxygenType
add_compound c d = record d { compound = d.compound ++ c ∷ [] }

unfoldable pub insert_compound : ℕ → CompoundType → DoxygenType → Result DoxygenType
unfolding set_item
insert_compound i c d = do cs ← set_item i c d.compound; ok (record d { compound = cs })

-- The fields of CompoundType.
abbrev pub set_compound_kind : Option Text → CompoundType → CompoundType
set_compound_kind v c = record c { kind = v }

abbrev pub set_compound_refid : Option Text → CompoundType → CompoundType
set_compound_refid v c = record c { refid = v }

abbrev pub set_compound_name : Option Text → CompoundType → CompoundType
set_compound_name v c = record c { name = v }

abbrev pub set_members : List MemberType → CompoundType → CompoundType
set_members ms c = record c { member = ms }

abbrev pub add_member : MemberType → CompoundType → CompoundType
add_member m c = record c { member = c.member ++ m ∷ [] }

unfoldable pub insert_member : ℕ → MemberType → CompoundType → Result CompoundType
unfolding set_item
insert_member i m c = do ms ← set_item i m c.member; ok (record c { member = ms })

-- The fields of MemberType.
abbrev pub set_member_kind : Option Text → MemberType → MemberType
set_member_kind v m = record m { kind = v }

abbrev pub set_member_refid : Option Text → MemberType → MemberType
set_member_refid v m = record m { refid = v }

abbrev pub set_member_name : Option Text → MemberType → MemberType
set_member_name v m = record m { name = v }
