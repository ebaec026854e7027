-- ===== src/Doxy/Objects.antt =====
-- How doxyxml objects come to be: `__init__`, `from_refid`, `from_parse_data`, `add_ref`,
-- `convert_mem` and `process_memberdefs` of base.py.
pub mod Conversion
pub mod Firsts
pub mod Interning
pub mod Members
pub mod References
use sdrportal.Prelude.{
  ℕ, Text, codes, Option, none, some, List, [], ◌∷◌, ◌++◌, Bool, true, false, ◌||◌, text_eq,
  if◌then◌else◌,
}
use sdrportal.Exc.{Exc, standard_error, unicode_error, Result, ok, err, attribute_error}
use sdrportal.Quote.{is_ascii}
use sdrportal.Compound.{Memberdef, Sectiondef, Compounddef}
use sdrportal.Doxy.Classes.{Cls, get_cls}
use sdrportal.Doxy.State.{
  ObjId, ParseData, directory, listed, memberdef, param, Described, Obj, State, M, ◌>>=◌, ◌>>◌,
  pure, raise, read, modify, print_line, alloc, lookup_ref, insert_ref,
}

abbrev pub nothing_described : Described
nothing_described = record {
  brief_description = none;
  detailed_description = none;
  title = none;
  params = none;
  declname = none;
}

-- `Base.__init__`
abbrev pub new_object : Cls → Option ParseData → Obj
new_object c pd = record {
  cls = c;
  parse_data = pd;
  refid = none;
  parsed = false;
  error = false;
  members = [];
  dict_members = [];
  in_category = [];
  described = nothing_described;
  retrieved = none;
}

-- `self.top._refs[refid] = obj`
abbrev set_ref : Text → ObjId → M (Unit {0})
set_ref r i s = (ok tt, record s { refs = insert_ref r i s.refs })

-- `if hasattr(obj, 'refid'): self.top._refs[obj.refid] = obj`
abbrev ref_of : Option Text → ObjId → M (Unit {0})
ref_of none i = pure tt
ref_of (some r) i = set_ref r i

unfoldable pub add_ref : ObjId → M (Unit {0})
unfolding ◌>>=◌ insert_ref
add_ref i = do o ← read i; ref_of o.refid i

-- A new object that is registered under its reference.
unfoldable pub make_registered : Cls → Option ParseData → Text → M ObjId
unfolding add_ref
make_registered c pd r = do
  i ← alloc (new_object c pd)
  modify i (λ o. record o { refid = some r })
  add_ref i
  pure i

abbrev found_or : Option ObjId → M ObjId → M ObjId
found_or none m = m
found_or (some i) m = pure i

-- `cls.from_refid(refid, top)`
unfoldable pub from_refid : Cls → Text → M ObjId
unfolding make_registered lookup_ref
from_refid c r s = found_or (lookup_ref r s.refs) (make_registered c none r) s

-- `getattr(parse_data, 'refid', None)`: the entries of the index alone have the attribute.
abbrev pub refid_of : ParseData → Option Text
refid_of (listed e) = e.refid
refid_of _ = none

abbrev from_data_refid : Cls → ParseData → Option Text → M ObjId
from_data_refid c pd none s = alloc (new_object c (some pd)) s
from_data_refid c pd (some r) s = found_or (lookup_ref r s.refs) (make_registered c (some pd) r) s

-- `cls.from_parse_data(parse_data, top)`
unfoldable pub from_parse_data : Cls → ParseData → M ObjId
unfolding make_registered lookup_ref
from_parse_data c pd = from_data_refid c pd (refid_of pd)

-- The attributes `kind` and `name` of an object of the bindings; `get_cls` raises AttributeError
-- for one without a kind.
unfoldable pub class_of : ParseData → Result Cls
unfolding get_cls
class_of (directory path) = err attribute_error
class_of (listed e) = get_cls e.kind e.name
class_of (memberdef m) = get_cls m.kind m.name
class_of (param p) = err attribute_error

-- The text of a StandardError; the message of the interpreter's own errors is not modelled.
abbrev pub message : Exc → Text
message (standard_error t) = t
message _ = []

-- `print e`: `str(e)` encodes the message in ASCII.
unfoldable pub print_error : Exc → M (Unit {0})
unfolding is_ascii
print_error e = if is_ascii (message e) then print_line (message e) else raise unicode_error

abbrev convert_as : Result Cls → ParseData → M (Option ObjId)
convert_as (err e) pd = do print_error e; pure none
convert_as (ok c) pd = do i ← from_parse_data c pd; add_ref i; pure (some i)

-- `self.convert_mem(mem)`: `None`, and a line printed, if no class is found; the exception that the
-- printing raises is not caught.
unfoldable pub convert_mem : ParseData → M (Option ObjId)
unfolding class_of from_parse_data add_ref print_error ◌>>=◌
convert_mem pd = convert_as (class_of pd) pd

unfoldable pub contains_name : Text → List Text → Bool
unfolding text_eq
contains_name t [] = false
contains_name t (u ∷ us) = text_eq u t || contains_name t us

-- The memberdefs of all sections.
abbrev pub memberdefs_of : List Sectiondef → List Memberdef
memberdefs_of [] = []
memberdefs_of (s ∷ ss) = s.memberdef ++ memberdefs_of ss

abbrev pub append_member : ObjId → Option ObjId → M (Unit {0})
append_member self c = modify self (λ o. record o { members = o.members ++ c ∷ [] })

-- The loop of `process_memberdefs`; all memberdefs have one class, so a pair is known by its name.
unfoldable pub memberdefs_loop : ObjId → List Text → List Memberdef → M (Unit {0})
unfolding convert_mem contains_name
memberdefs_loop self uniques [] = pure tt
memberdefs_loop self uniques (m ∷ ms) =
    let again = memberdefs_loop self uniques ms in
    let onward = memberdefs_loop self (m.name ∷ uniques) ms in
    do
      converted ← convert_mem (memberdef m)
      if contains_name m.name uniques then again else (append_member self converted >> onward)

abbrev pub memberdefs_of_document : ObjId → Option (Option (Option Compounddef)) → M (Unit {0})
memberdefs_of_document self (some (some (some c))) =
    memberdefs_loop self [] (memberdefs_of c.sectiondef)
memberdefs_of_document self _ = raise attribute_error

unfoldable pub process_memberdefs : ObjId → M (Unit {0})
unfolding memberdefs_loop
process_memberdefs self = do o ← read self; memberdefs_of_document self o.retrieved
