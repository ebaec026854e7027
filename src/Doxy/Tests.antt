-- ===== src/Doxy/Tests.antt =====
-- The objects of base.py and doxyindex.py in a directory of one file of members.
use sdrportal.Prelude.{
  ◌≡◌, ◌↔◌, refl, Text, codes, Option, none, some, [], ◌∷◌, map, Bool, true, false, List, arith,
}
use sdrportal.Exc.{ok, err, key_error, attribute_error, parsing_error, unicode_error}
use sdrportal.Prelude.{◌++◌, ◌≢◌, ◌⊎◌, All}
use sdrportal.Describe.{Bit}
use sdrportal.Compound.{Memberdef, Compounddef}
use sdrportal.Doxy.Heap.{At}
use sdrportal.Doxy.Objects.{memberdefs_of, process_memberdefs}
use sdrportal.Doxy.Objects.Firsts.{firsts}
use sdrportal.Doxy.Objects.Conversion.{IsPrintable, Represent}
use sdrportal.Doxy.Objects.Members.{process_memberdefs-firsts}
use sdrportal.Doxy.Classes.{doxy_class, doxy_file, doxy_function, can_parse, get_cls}
use sdrportal.Doxy.Classes.Choice.{get_cls_iff}
use sdrportal.Doxy.State.{
  ObjId, World, no_file, bad_xml, memberdef, listed, Listed, instances, State, M, Obj, pure,
}
use sdrportal.Doxy.Objects.{new_object, from_refid, from_parse_data}
use sdrportal.Doxy.Objects.Interning.{from_refid-interns}
use sdrportal.Doxy.Parsing.{confirm_no_error}
use sdrportal.Doxy.Parsing.Faults.{confirm_no_error-IsBroken}
use sdrportal.Doxy.Lookup.{Names, get_entry, names_loop, get_member, get_member_from}
use sdrportal.Doxy.Lookup.Dictionary.{carriers, verdict, names_loop-verdict}
use sdrportal.Doxy.Lookup.Paths.{get_member_from-get_member}

abbrev function_named : Text → Memberdef
function_named name = record {
  kind = some (codes "function");
  id = none;
  name = name;
  param = [];
  briefdescription = none;
  detaileddescription = none;
}

abbrev function_object : Text → Obj
function_object name = new_object doxy_function (some (memberdef (function_named name)))

abbrev two_functions : State
two_functions = record {
  heap = function_object (codes "work") ∷ function_object (codes "start") ∷ [];
  refs = [];
  xml_path = codes "xml";
  printed = [];
}

abbrev no_files : World
no_files = record {
  join_path = λ a b. b;
  index_file = λ f. err key_error;
  compound_file = λ f. no_file;
}

abbrev no_blocks : Option ObjId → M Bool
no_blocks m = pure false

abbrev two_names : List (Text × ObjId)
two_names = (codes "work", 0) ∷ (codes "start", 1) ∷ []

names_loop-verdict_example :
    (d : Names) × (names_loop no_files no_blocks (map (λ (n, i). some i) two_names) [] two_functions
      ≡ (ok d, two_functions))
    × ((n : Text) → get_entry n d ≡ verdict (carriers n two_names))
unfolding names_loop
names_loop-verdict_example =
    names_loop-verdict no_files no_blocks two_functions two_names (refl, (refl, tt))

get_member_from-get_member_example :
    get_member_from no_files no_blocks 20 0 (codes "gr::sync_block") (instances doxy_class)
    ≡ get_member no_files no_blocks 0 (codes "gr::sync_block") (instances doxy_class)
get_member_from-get_member_example =
    get_member_from-get_member no_files no_blocks 20 0 (codes "gr::sync_block")
      (instances doxy_class) (omega arith)

-- A class whose file holds two overloads of one function.
abbrev overloaded : Compounddef
overloaded = record {
  id = some (codes "c1");
  compoundname = codes "sdrp_sink";
  title = Bit.str [];
  innerclass = [];
  innergroup = [];
  sectiondef =
      record {
        kind = none;
        memberdef = function_named (codes "work") ∷ function_named (codes "work") ∷ [];
      }
      ∷ [];
  briefdescription = none;
  detaileddescription = none;
}

abbrev retrieved_class : Obj
retrieved_class = record (new_object doxy_class none) { retrieved = some (some (some overloaded)) }

abbrev one_retrieved : State
one_retrieved = record { heap = retrieved_class ∷ []; refs = []; xml_path = []; printed = [] }

process_memberdefs-firsts_example :
    (All IsPrintable (memberdefs_of overloaded.sectiondef)
      × (cs : List (Option ObjId)) × (s' : State) × (process_memberdefs 0 one_retrieved
          ≡ (ok tt, s'))
      × At 0 (record retrieved_class { members = retrieved_class.members ++ cs }) s'
      × Represent cs (firsts (memberdefs_of overloaded.sectiondef)) s'
      × ((i : ObjId) (v : Obj) → i ≢ 0 → At i v one_retrieved → At i v s'))
    ⊎ ((¬ All IsPrintable (memberdefs_of overloaded.sectiondef))
        × (s' : State) × (process_memberdefs 0 one_retrieved ≡ (err unicode_error, s')))
process_memberdefs-firsts_example =
    process_memberdefs-firsts 0 retrieved_class overloaded one_retrieved refl refl

abbrev listed_class : Listed
listed_class = record {
  kind = some (codes "class");
  refid = some (codes "c1");
  name = codes "sdrp_sink";
}

from_refid-interns_example :
    (i : ObjId) × ((from_refid doxy_class (codes "c1") two_functions).0 ≡ ok i)
    × (from_refid doxy_file (codes "c1") (from_refid doxy_class (codes "c1") two_functions).1
        ≡ (ok i, (from_refid doxy_class (codes "c1") two_functions).1))
    × (from_parse_data doxy_file
          (listed listed_class)
          (from_refid doxy_class (codes "c1") two_functions).1
        ≡ (ok i, (from_refid doxy_class (codes "c1") two_functions).1))
from_refid-interns_example =
    from_refid-interns doxy_class doxy_file (codes "c1") listed_class two_functions refl

get_cls_iff_example :
    (get_cls (some (codes "class")) (codes "sdrp_sink") ≡ ok doxy_class)
    ↔ (can_parse doxy_class (some (codes "class")) ≡ true)
get_cls_iff_example = get_cls_iff (codes "class") (codes "sdrp_sink") doxy_class

abbrev broken_files : World
broken_files = record {
  join_path = λ a b. b;
  index_file = λ f. err key_error;
  compound_file = λ f. bad_xml;
}

abbrev unread_file : Obj
unread_file = record (new_object doxy_file none) { refid = some (codes "f1") }

abbrev one_file : State
one_file = record { heap = unread_file ∷ []; refs = []; xml_path = []; printed = [] }

confirm_no_error-IsBroken_example :
    (s' : State) × (confirm_no_error broken_files 0 one_file ≡ (err attribute_error, s'))
    × (confirm_no_error broken_files 0 s' ≡ (err parsing_error, s'))
confirm_no_error-IsBroken_example =
    confirm_no_error-IsBroken broken_files 0 unread_file one_file attribute_error
      (record { at = refl; unparsed = refl; refid = codes "f1"; named = refl; broken = refl }) refl
