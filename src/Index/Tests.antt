-- ===== src/Index/Tests.antt =====
-- indexsuper.py and index.py at an index of one class with two members.
use sdrportal.Prelude.{◌≡◌, Text, codes, [], ◌∷◌, map, Bool, false, text_eq, some, none}
use sdrportal.Exc.{ok}
use sdrportal.Prelude.{All, ◌⊎◌}
use sdrportal.Exc.{err, attribute_error, unicode_error}
use sdrportal.Index.Literal.{doxygen_literal}
use sdrportal.Index.Literal.Laws.{CompoundFits, doxygen_literal-cases}
use sdrportal.Index.{MemberType}
use sdrportal.Index.Find.{find_compounds_and_members}
use sdrportal.Index.Find.Laws.{select, wanted, report, find_compounds_and_members_lem}
use sdrportal.Index.ToDom.{PlainMember, PlainIndex, index_object}

abbrev function_named : Text → PlainMember
function_named name = record { kind = codes "function"; refid = codes "m1"; name = name }

abbrev index_name : Text
index_name = codes "doxygenindex"

abbrev one_class : PlainIndex
one_class = record {
  version = codes "1.7";
  compounds =
      record {
        kind = codes "class";
        refid = codes "c1";
        name = codes "sdrp_sink<\"T\">";
        members = function_named (codes "work") ∷ function_named (codes "operator<") ∷ [];
      }
      ∷ [];
}

abbrev is_work : MemberType → Bool
is_work m = elim m.name [ none ↦ false | some n ↦ text_eq n (codes "work") ]

find_compounds_and_members_lem_example :
    find_compounds_and_members (λ c. false) is_work (index_object one_class)
    ≡ map
        (report (λ c. false) is_work)
        (select (wanted (λ c. false) is_work) (index_object one_class).compound)
find_compounds_and_members_lem_example =
    find_compounds_and_members_lem (λ c. false) is_work (index_object one_class)

doxygen_literal-cases_example :
    (All CompoundFits (index_object one_class).compound
      × (t : Text) × (doxygen_literal 0 (index_object one_class) ≡ ok t))
    ⊎ ((¬ All CompoundFits (index_object one_class).compound)
        × ((doxygen_literal 0 (index_object one_class) ≡ err attribute_error)
            ⊎ (doxygen_literal 0 (index_object one_class) ≡ err unicode_error)))
doxygen_literal-cases_example = doxygen_literal-cases 0 (index_object one_class)
