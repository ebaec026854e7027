-- ===== src/Doxy/Lookup/Dictionary.antt =====
-- What the dictionary of members says of a name.
use sdrportal.Prelude.{
  ◌≡◌, refl, ◌∙◌, Text, Option, none, some, List, [], ◌∷◌, Bool-cases, inl, inr, Bool, text_eq,
  text_eq_iff, text_eq_refl, map, All, arith, if◌then◌else◌,
}
use sdrportal.Exc.{ok}
use sdrportal.Doxy.State.{ObjId, World, Entry, one, duplicates, State, M}
use sdrportal.Doxy.Parsing.{name}
use sdrportal.Doxy.Lookup.{Names, get_entry, set_entry, add_name, names_loop}

-- The members with a given name.
abbrev pub carriers : Text → List (Text × ObjId) → List ObjId
carriers n [] = []
carriers n ((k, i) ∷ rest) = if text_eq k n then i ∷ carriers n rest else carriers n rest

-- Nothing for no member, the member itself if it is the only one, and a mark for more.
abbrev pub verdict : List ObjId → Option Entry
verdict [] = none
verdict (i ∷ []) = some (one i)
verdict (i ∷ j ∷ rest) = some duplicates

collect : List (Text × ObjId) → Names → Names
collect [] d = d
collect ((k, i) ∷ rest) d = collect rest (add_name k i d)

-- The entry of a name for which the dictionary had `e`, after more members of that name.
abbrev joined : Option Entry → List ObjId → Option Entry
joined e [] = e
joined none (i ∷ rest) = joined (some (one i)) rest
joined (some e) (i ∷ rest) = some duplicates

get_entry-set_entry :
    (n k : Text) (e : Entry) (d : Names)
    → get_entry n (set_entry k e d) ≡ (if text_eq k n then some e else get_entry n d)
unfolding get_entry set_entry
get_entry-set_entry n k e [] = refl
get_entry-set_entry n k e ((j, x) ∷ d) =
    ground (arith, get_entry-set_entry n k e d, text_eq_iff j k, text_eq_iff j n, text_eq_iff k n)

get_entry-add_name :
    (n k : Text) (i : ObjId) (d : Names)
    → get_entry n (add_name k i d)
      ≡ (if text_eq k n then joined (get_entry n d) (i ∷ []) else get_entry n d)
unfolding add_name
get_entry-add_name n k i d = elim (Bool-cases (text_eq k n)) [
  | inl e ↦
      let same : k ≡ n = (text_eq_iff k n).0 e in
      rw same (
        ground (
          arith,
          get_entry-set_entry n n (one i) d,
          get_entry-set_entry n n duplicates d,
          text_eq_refl n,
        ))
  | inr e ↦ ground (arith, get_entry-set_entry n k (one i) d, get_entry-set_entry n k duplicates d)
]

joined-cons :
    (e : Option Entry) (i : ObjId) (is : List ObjId)
    → joined (joined e (i ∷ [])) is ≡ joined e (i ∷ is)
joined-cons none i is = refl
joined-cons (some e) i [] = refl
joined-cons (some e) i (j ∷ is) = refl

joined-verdict : (is : List ObjId) → joined none is ≡ verdict is
joined-verdict [] = refl
joined-verdict (i ∷ []) = refl
joined-verdict (i ∷ j ∷ is) = refl

get_entry-collect :
    (n : Text) (ms : List (Text × ObjId)) (d : Names)
    → get_entry n (collect ms d) ≡ joined (get_entry n d) (carriers n ms)
unfolding collect
get_entry-collect n [] d = refl
get_entry-collect n ((k, i) ∷ rest) d =
    rw (get_entry-collect n rest (add_name k i d), get_entry-add_name)
      (elim (Bool-cases (text_eq k n)) [
        | inl e ↦ rw e (joined-cons (get_entry n d) i (carriers n rest))
        | inr e ↦ rw e
      ])

module _ (w : World) (includes_block : Option ObjId → M Bool) (s : State) where
  -- The object has the name, and tells it without a change of the state.
  abbrev pub NameIs : Text × ObjId → Type 0
  NameIs (n, i) = name w i s ≡ (ok n, s)

  names_loop_lem :
      (ms : List (Text × ObjId)) (d : Names)
      → All NameIs ms
      → names_loop w includes_block (map (λ (n, i). some i) ms) d s ≡ (ok (collect ms d), s)
  unfolding names_loop collect
  names_loop_lem [] d h = refl
  names_loop_lem ((n, i) ∷ ms) d h = rw (h.0) (names_loop_lem ms (add_name n i d) h.1)

  -- The dictionary that `_get_dict_members` builds of members whose names are known maps each name
  -- to the only member that has it, to the mark `Duplicate` if several have it, and holds nothing
  -- for it if none has; building it changes no object.
  pub names_loop-verdict :
      (ms : List (Text × ObjId))
      → All NameIs ms
      → (d : Names) × (names_loop w includes_block (map (λ (n, i). some i) ms) [] s ≡ (ok d, s))
        × ((n : Text) → get_entry n d ≡ verdict (carriers n ms))
  names_loop-verdict ms h = (
    collect ms [],
    names_loop_lem ms [] h,
    λ n. get_entry-collect n ms [] ∙ unfold get_entry in joined-verdict (carriers n ms),
  )
