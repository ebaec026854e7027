-- ===== src/Compound/Tests.antt =====
-- The search of compound.py at a compound with two sections.
use sdrportal.Prelude.{Text, codes, none, some, [], ◌∷◌, All, ◌≡◌, ◌≢◌, ◌⊎◌}
use sdrportal.Describe.{Bit}
use sdrportal.Compound.{Memberdef, Compounddef, compound, member, find}
use sdrportal.Compound.Laws.{all_members, IsFirst, find_lem}

abbrev memberdef_with : Text → Memberdef
memberdef_with refid = record {
  kind = some (codes "function");
  id = some refid;
  name = codes "work";
  param = [];
  briefdescription = none;
  detaileddescription = none;
}

abbrev two_sections : Compounddef
two_sections = record {
  id = some (codes "c1");
  compoundname = codes "sdrp_sink";
  title = Bit.str [];
  innerclass = [];
  innergroup = [];
  sectiondef =
      record { kind = none; memberdef = memberdef_with (codes "m1") ∷ [] }
      ∷ record { kind = none; memberdef = memberdef_with (codes "m2") ∷ [] }
      ∷ [];
  briefdescription = none;
  detaileddescription = none;
}

abbrev m2 : Text
m2 = codes "m2"

find_lem_example :
    ((two_sections.id ≡ some m2) × (find (some m2) two_sections ≡ some (compound two_sections)))
    ⊎ ((two_sections.id ≢ some m2)
        × (m : Memberdef) × IsFirst m2 (all_members two_sections.sectiondef) m
        × (find (some m2) two_sections ≡ some (member m)))
    ⊎ ((two_sections.id ≢ some m2)
        × All (λ x. x.id ≢ some m2) (all_members two_sections.sectiondef)
        × (find (some m2) two_sections ≡ none))
find_lem_example = find_lem m2 two_sections
