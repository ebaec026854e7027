-- ===== src/Doxy/Lookup.antt =====
-- How members are found: `in_category`, `_get_dict_members`, `get_member` and `has_member` of
-- base.py. What `cat.includes` does for a category that is no class of doxyindex.py is an argument.
pub mod Dictionary
pub mod Paths
use sdrportal.Prelude.{
  ℕ, zero, suc, Text, codes, Option, none, some, List, [], ◌∷◌, ◌++◌, Bool, true, false, ◌==◌, ◌&&◌,
  text_eq, length, if◌then◌else◌,
}
use sdrportal.Exc.{Exc, duplicate, no_such_member, Result, ok, err, attribute_error}
use sdrportal.Str.{split, join}
use sdrportal.Doxy.Classes.{Cls, cls_eq, is_subclass}
use sdrportal.Doxy.State.{
  ObjId, World, Category, everything, instances, blocks, Entry, one, duplicates, Obj, State, M,
  ◌>>=◌, ◌>>◌, pure, raise, lift, read, modify,
}
use sdrportal.Doxy.Parsing.{confirm_no_error, name}

abbrev pub category_eq : Category → Category → Bool
category_eq everything everything = true
category_eq (instances c) (instances d) = cls_eq c d
category_eq blocks blocks = true
category_eq _ _ = false

abbrev pub lookup_cached {ℓ} : {A : Type ℓ} → Category → List (Category × A) → Option A
lookup_cached k [] = none
lookup_cached k ((c, a) ∷ rest) = if category_eq c k then some a else lookup_cached k rest

-- A dictionary of members, by name.
abbrev pub Names : Type 0
Names = List (Text × Entry)

unfoldable pub get_entry : Text → Names → Option Entry
unfolding text_eq
get_entry n [] = none
get_entry n ((k, e) ∷ rest) = if text_eq k n then some e else get_entry n rest

-- `new_dict[name] = value`
unfoldable pub set_entry : Text → Entry → Names → Names
unfolding text_eq
set_entry n v [] = (n, v) ∷ []
set_entry n v ((k, e) ∷ rest) = if text_eq k n then (k, v) ∷ rest else (k, e) ∷ set_entry n v rest

-- One round of the loop of `_get_dict_members`: a name that is there becomes `Duplicate`.
unfoldable pub add_name : Text → ObjId → Names → Names
unfolding get_entry set_entry
add_name n i d = elim (get_entry n d) [
  | none ↦ set_entry n (one i) d
  | some e ↦ set_entry n duplicates d
]

abbrev pub first_bit : List Text → Text
first_bit [] = []
first_bit (b ∷ bs) = b

abbrev pub other_bits : List Text → List Text
other_bits [] = []
other_bits (b ∷ bs) = bs

abbrev is_empty : Text → Bool
is_empty [] = true
is_empty (c ∷ s) = false

module _ (w : World) (includes_block : Option ObjId → M Bool) where
  -- `cat.includes(mem)`: `isinstance(mem, cls)` for a class.
  abbrev pub includes : Category → Option ObjId → M Bool
  includes everything mem = pure true
  includes (instances c) none = pure false
  includes (instances c) (some i) = do o ← read i; pure (is_subclass o.cls c)
  includes blocks mem = includes_block mem

  unfoldable pub filter_members : Category → List (Option ObjId) → M (List (Option ObjId))
  unfolding ◌>>=◌
  filter_members cat [] = pure []
  filter_members cat (m ∷ ms) = do
    keep ← includes cat m
    rest ← filter_members cat ms
    pure (if keep then m ∷ rest else rest)

  abbrev pub cached_or : ObjId → Category → Option (List (Option ObjId)) → M (List (Option ObjId))
  cached_or self cat (some ms) = pure ms
  cached_or self cat none = do
    o ← read self
    found ← filter_members cat o.members
    modify self (λ p. record p { in_category = (cat, found) ∷ p.in_category })
    pure found

  -- `self.in_category(cat)`
  unfoldable pub in_category : ObjId → Category → M (List (Option ObjId))
  unfolding filter_members confirm_no_error
  in_category self everything = do confirm_no_error w self; o ← read self; pure o.members
  in_category self cat = do
    confirm_no_error w self
    o ← read self
    cached_or self cat (lookup_cached cat o.in_category)

  abbrev pub name_of : Option ObjId → M Text
  name_of none = raise attribute_error
  name_of (some i) = name w i

  abbrev pub add_named : Text → Option ObjId → Names → Names
  add_named n none d = d
  add_named n (some i) d = add_name n i d

  unfoldable pub names_loop : List (Option ObjId) → Names → M Names
  unfolding name add_name ◌>>=◌
  names_loop [] d = pure d
  names_loop (m ∷ ms) d = do n ← name_of m; names_loop ms (add_named n m d)

  abbrev pub names_or : ObjId → Category → Option Names → M Names
  names_or self cat (some d) = pure d
  names_or self cat none = do
    ms ← in_category self cat
    d ← names_loop ms []
    modify self (λ p. record p { dict_members = (cat, d) ∷ p.dict_members })
    pure d

  -- `self._get_dict_members(cat)`
  unfoldable pub get_dict_members : ObjId → Category → M Names
  unfolding in_category names_loop
  get_dict_members self cat = do
    confirm_no_error w self
    o ← read self
    names_or self cat (lookup_cached cat o.dict_members)

  abbrev pub entry_member : Option Entry → M ObjId
  entry_member none = raise no_such_member
  entry_member (some duplicates) = raise duplicate
  entry_member (some (one i)) = pure i

  -- The member of a scoped name's first part.
  abbrev pub get_direct : ObjId → Category → Text → M ObjId
  get_direct self cat first = do
    confirm_no_error w self
    d ← get_dict_members self cat
    entry_member (get_entry first d)

  -- `self.get_member(name, cat)`, with fuel for the parts of the name.
  unfoldable pub get_member_from : ℕ → ObjId → Text → Category → M ObjId
  unfolding get_dict_members split join get_entry
  get_member_from zero self name cat = raise attribute_error
  get_member_from (suc fuel) self name cat =
      let bits = split (codes "::") name in
      let rest = join (codes "::") (other_bits bits) in
      do
        member ← get_direct self cat (first_bit bits)
        elim (is_empty rest) [ true ↦ pure member | false ↦ get_member_from fuel member rest cat ]

  -- Each part of a name is shorter than the name by the separator, so its length is fuel enough.
  unfoldable pub get_member : ObjId → Text → Category → M ObjId
  unfolding get_member_from
  get_member self name cat = get_member_from (suc (length name)) self name cat

  abbrev pub found_member : Result ObjId → Result Bool
  found_member (ok i) = ok true
  found_member (err no_such_member) = ok false
  found_member (err e) = err e

  -- `self.has_member(name, cat)`: only NoSuchMember is caught.
  unfoldable pub has_member : ObjId → Text → Category → M Bool
  unfolding get_member
  has_member self name cat s = let (r, s') = get_member self name cat s in (found_member r, s')
