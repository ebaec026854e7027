-- ===== src/Bindings/View.antt =====
-- What doxyxml reads of the objects that the bindings build: a compounddef with its sections, members,
-- parameters and descriptions, as the records of Compound. A field of another kind, or a reference
-- without `refid`, has no counterpart there.
use sdrportal.Prelude.{Text, codes, Option, none, some, List, [], ◌∷◌}
use sdrportal.Describe.{Bit}
use sdrportal.Compound.{Param, Memberdef, Sectiondef, Compounddef}
use sdrportal.Bindings.Value.{
  Value, nothing, string, array, instance_of, Values, nil, cons, Fields, get_field,
}
use sdrportal.Bindings.Bits.{bit_of}

infixl 5 ◌>>=◌
abbrev pub ◌>>=◌ {ℓ κ} : {A : Type ℓ} {B : Type κ} → Option A → (A → Option B) → Option B
none >>= f = none
some a >>= f = f a

abbrev pub as_text : Value → Option Text
as_text (string t) = some t
as_text _ = none

abbrev pub as_maybe_text : Value → Option (Option Text)
as_maybe_text nothing = some none
as_maybe_text (string t) = some (some t)
as_maybe_text _ = none

abbrev pub as_description : Value → Option (Option Bit)
as_description nothing = some none
as_description (instance_of c fs) = some (some (bit_of (instance_of c fs)))
as_description _ = none

unfoldable pub all_of {ℓ} : {A : Type ℓ} → (Value → Option A) → Values → Option (List A)
all_of f nil = some []
all_of f (cons v vs) = do a ← f v; rest ← all_of f vs; some (a ∷ rest)

abbrev pub as_list {ℓ} : {A : Type ℓ} → (Value → Option A) → Value → Option (List A)
as_list f (array vs) = all_of f vs
as_list f _ = none

abbrev pub as_object {ℓ} : {A : Type ℓ} → (Fields → Option A) → Value → Option A
as_object f (instance_of c fs) = f fs
as_object f _ = none

-- `obj.k`, seen through `f`.
abbrev pub at {ℓ} : {A : Type ℓ} → Text → (Value → Option A) → Fields → Option A
at k f fs = get_field k fs >>= f

unfoldable pub param_of : Fields → Option Param
unfolding get_field bit_of
param_of fs = do
  declname ← at (codes "declname") as_text fs
  brief ← at (codes "briefdescription") as_description fs
  some (record { declname = declname; briefdescription = brief })

unfoldable pub memberdef_of : Fields → Option Memberdef
unfolding get_field bit_of all_of param_of
memberdef_of fs = do
  kind ← at (codes "kind") as_maybe_text fs
  id ← at (codes "id") as_maybe_text fs
  name ← at (codes "name") as_text fs
  params ← at (codes "param") (as_list (as_object param_of)) fs
  brief ← at (codes "briefdescription") as_description fs
  detailed ← at (codes "detaileddescription") as_description fs
  some (record {
    kind = kind;
    id = id;
    name = name;
    param = params;
    briefdescription = brief;
    detaileddescription = detailed;
  })

unfoldable pub sectiondef_of : Fields → Option Sectiondef
unfolding get_field all_of memberdef_of
sectiondef_of fs = do
  kind ← at (codes "kind") as_maybe_text fs
  members ← at (codes "memberdef") (as_list (as_object memberdef_of)) fs
  some (record { kind = kind; memberdef = members })

-- The references in a field.
unfoldable pub refids_of : Text → Fields → Option (List Text)
unfolding get_field all_of
refids_of k fs = at k (as_list (as_object (at (codes "refid") as_text))) fs

unfoldable pub compounddef_of : Fields → Option Compounddef
unfolding get_field bit_of all_of sectiondef_of refids_of
compounddef_of fs = do
  id ← at (codes "id") as_maybe_text fs
  name ← at (codes "compoundname") as_text fs
  title ← at (codes "title") (λ v. some (bit_of v)) fs
  classes ← refids_of (codes "innerclass") fs
  groups ← refids_of (codes "innergroup") fs
  sections ← at (codes "sectiondef") (as_list (as_object sectiondef_of)) fs
  brief ← at (codes "briefdescription") as_description fs
  detailed ← at (codes "detaileddescription") as_description fs
  some (record {
    id = id;
    compoundname = name;
    title = title;
    innerclass = classes;
    innergroup = groups;
    sectiondef = sections;
    briefdescription = brief;
    detaileddescription = detailed;
  })
