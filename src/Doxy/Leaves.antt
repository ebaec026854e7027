-- ===== src/Doxy/Leaves.antt =====
-- The methods `_parse` of doxyindex.py for every class but the index, with `retrieve_data` and
-- `set_descriptions`.
use sdrportal.Prelude.{Text, codes, Option, none, some, List, [], ◌∷◌, ◌++◌, Bool, true, false}
use sdrportal.Exc.{standard_error, Result, ok, err, attribute_error, parsing_error}
use sdrportal.Describe.{Bit, description}
use sdrportal.Compound.{Param, Compounddef}
use sdrportal.Doxy.Classes.{Cls, doxy_function, doxy_param, doxy_class, doxy_file, doxy_group}
use sdrportal.Doxy.State.{
  ObjId, ParseData, directory, listed, memberdef, param, World, Loaded, bad_xml, no_file, failed,
  document, Described, Obj, M, ◌>>=◌, ◌>>◌, pure, raise, lift, read, modify, print_line, alloc,
}
use sdrportal.Doxy.Objects.{new_object, from_refid, process_memberdefs}

-- `getattr(parse_data, 'briefdescription', None)` and `'detaileddescription'`
abbrev pub descriptions_in : ParseData → Option Bit × Option Bit
descriptions_in (directory path) = (none, none)
descriptions_in (listed e) = (none, none)
descriptions_in (memberdef m) = (m.briefdescription, m.detaileddescription)
descriptions_in (param p) = (p.briefdescription, none)

abbrev pub compound_descriptions : Option Compounddef → Option Bit × Option Bit
compound_descriptions none = (none, none)
compound_descriptions (some c) = (c.briefdescription, c.detaileddescription)

abbrev pub describe : ObjId → (Described → Described) → M (Unit {0})
describe i f = modify i (λ o. record o { described = f o.described })

-- `DoxyCompMem.set_descriptions`
unfoldable pub set_descriptions : ObjId → Option Bit × Option Bit → M (Unit {0})
unfolding description ◌>>=◌
set_descriptions i (brief, detailed) = do
  bd ← lift (description brief)
  dd ← lift (description detailed)
  describe i (λ d. record d { brief_description = some bd; detailed_description = some dd })

-- `Base._parse`
abbrev pub mark_parsed : ObjId → M (Unit {0})
mark_parsed i = modify i (λ o. record o { parsed = true })

abbrev pub append_all : ObjId → List (Option ObjId) → M (Unit {0})
append_all self ms = modify self (λ o. record o { members = o.members ++ ms })

abbrev pub parameters : Option ParseData → M (List Param)
parameters (some (memberdef m)) = pure m.param
parameters _ = raise attribute_error

abbrev pub append_param : ObjId → ObjId → Option (List ObjId) → M (Unit {0})
append_param self i none = raise attribute_error
append_param self i (some ps) = describe self (λ d. record d { params = some (ps ++ i ∷ []) })

-- The loop that appends `DoxyParam(prm)` for each parameter.
unfoldable pub params_loop : ObjId → List Param → M (Unit {0})
unfolding ◌>>=◌
params_loop self [] = pure tt
params_loop self (p ∷ ps) = do
  i ← alloc (new_object doxy_param (some (param p)))
  o ← read self
  append_param self i o.described.params
  params_loop self ps

abbrev pub own_descriptions : Option ParseData → Option Bit × Option Bit
own_descriptions none = (none, none)
own_descriptions (some pd) = descriptions_in pd

-- `DoxyFunction._parse`, behind its guard
unfoldable pub parse_function : ObjId → M (Unit {0})
unfolding set_descriptions params_loop
parse_function self = do
  mark_parsed self
  o ← read self
  set_descriptions self (own_descriptions o.parse_data)
  describe self (λ d. record d { params = some [] })
  prms ← parameters o.parse_data
  params_loop self prms

abbrev pub declname_of : Option ParseData → Result Text
declname_of (some (param p)) = ok p.declname
declname_of _ = err attribute_error

-- `DoxyParam._parse`
unfoldable pub parse_param : ObjId → M (Unit {0})
unfolding set_descriptions
parse_param self = do
  mark_parsed self
  o ← read self
  set_descriptions self (own_descriptions o.parse_data)
  name ← lift (declname_of o.parse_data)
  describe self (λ d. record d { declname = some name })

-- `self._retrieved_data.compounddef`
abbrev pub retrieved_compound : Option (Option (Option Compounddef)) → Result (Option Compounddef)
retrieved_compound (some (some doc)) = ok doc
retrieved_compound _ = err attribute_error

abbrev pub retrieve : Option (Option Compounddef) → Obj → Obj
retrieve r o = record o { retrieved = some r }

abbrev pub required : {A : Type 0} → Option A → Result A
required none = err attribute_error
required (some a) = ok a

module _ (w : World) where
  abbrev pub file_of : Text → Text → Text
  file_of path refid = w.join_path path (refid ++ codes ".xml")

  abbrev pub take_document : ObjId → Text → Loaded → M (Unit {0})
  take_document self file bad_xml = do
    print_line (codes "Error in xml in file " ++ file)
    modify self (λ o. retrieve none (record o { error = true }))
  take_document self file no_file = raise (standard_error (codes "IOError"))
  take_document self file (failed e) = raise e
  take_document self file (document doc) = modify self (retrieve (some doc))

  abbrev pub retrieve_named : ObjId → Option Text → M (Unit {0})
  retrieve_named self none s = (err attribute_error, s)
  retrieve_named self (some refid) s =
      let file = file_of s.xml_path refid in take_document self file (w.compound_file file) s

  -- `Base.retrieve_data`
  unfoldable pub retrieve_data : ObjId → M (Unit {0})
  unfolding ◌>>=◌
  retrieve_data self = do o ← read self; retrieve_named self o.refid

  abbrev pub unless_error : Bool → M (Unit {0}) → M (Unit {0})
  unless_error true m = pure tt
  unless_error false m = m

  -- `DoxyClass._parse`
  unfoldable pub parse_class : ObjId → M (Unit {0})
  unfolding retrieve_data set_descriptions process_memberdefs
  parse_class self = do
    mark_parsed self
    retrieve_data self
    o ← read self
    unless_error o.error do
      doc ← lift (retrieved_compound o.retrieved)
      set_descriptions self (compound_descriptions doc)
      process_memberdefs self

  -- `DoxyFile._parse`: the descriptions come before the test for an error.
  unfoldable pub parse_file : ObjId → M (Unit {0})
  unfolding retrieve_data set_descriptions process_memberdefs
  parse_file self = do
    mark_parsed self
    retrieve_data self
    o ← read self
    doc ← lift (retrieved_compound o.retrieved)
    set_descriptions self (compound_descriptions doc)
    unless_error o.error (process_memberdefs self)

  -- The loops over `innergroup` and `innerclass`.
  unfoldable pub inner_loop : Cls → ObjId → List Text → M (Unit {0})
  unfolding from_refid ◌>>=◌
  inner_loop c self [] = pure tt
  inner_loop c self (r ∷ rs) = do
    converted ← from_refid c r
    append_all self (some converted ∷ [])
    inner_loop c self rs

  -- `DoxyGroup._parse`
  unfoldable pub parse_group : ObjId → M (Unit {0})
  unfolding retrieve_data inner_loop process_memberdefs description
  parse_group self = do
    mark_parsed self
    retrieve_data self
    o ← read self
    unless_error o.error do
      doc ← lift (retrieved_compound o.retrieved)
      cdef ← lift (required doc)
      title ← lift (description (some cdef.title))
      describe self (λ d. record d { title = some title })
      inner_loop doxy_group self cdef.innergroup
      inner_loop doxy_class self cdef.innerclass
      process_memberdefs self

  -- `_parse` of every class but the index: the classes without one of their own have Base's.
  unfoldable pub parse_below : Cls → ObjId → M (Unit {0})
  unfolding parse_function parse_param parse_class parse_file parse_group
  parse_below doxy_function self = parse_function self
  parse_below doxy_param self = parse_param self
  parse_below doxy_class self = parse_class self
  parse_below doxy_file self = parse_file self
  parse_below doxy_group self = parse_group self
  parse_below _ self = mark_parsed self

  abbrev pub unless_parsed : Bool → M (Unit {0}) → M (Unit {0})
  unless_parsed true m = pure tt
  unless_parsed false m = m

  unfoldable pub check_parsed_below : ObjId → M (Unit {0})
  unfolding parse_below
  check_parsed_below self = do o ← read self; unless_parsed o.parsed (parse_below o.cls self)

  abbrev pub no_error : Bool → M (Unit {0})
  no_error true = raise parsing_error
  no_error false = pure tt

  -- `members()` of an object below the index.
  unfoldable pub members_below : ObjId → M (List (Option ObjId))
  unfolding check_parsed_below
  members_below self = do check_parsed_below self; o ← read self; no_error o.error; pure o.members
