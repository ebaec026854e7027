-- ===== src/Compound.antt =====
-- The objects that gr-sdrp/docs/doxygen/doxyxml/generated/compound.py builds from the XML file of a
-- compound, as far as doxyxml reads them, and the searches of that file. Bindings has the whole
-- objects and how `compound.parse` builds them.
pub mod Laws
mod Tests
use sdrportal.Prelude.{Text, Option, none, some, List, [], ◌∷◌, Bool, text_eq, if◌then◌else◌}
use sdrportal.Describe.{Bit}

-- `paramType`; its descriptions are `None` until a document gives them.
pub record Param : Type 0 where
  pub declname : Text
  pub briefdescription : Option Bit

pub record Memberdef : Type 0 where
  pub kind : Option Text
  pub id : Option Text
  pub name : Text
  pub param : List Param
  pub briefdescription : Option Bit
  pub detaileddescription : Option Bit

pub record Sectiondef : Type 0 where
  pub kind : Option Text
  pub memberdef : List Memberdef

-- `compounddefType`; the references in `innerclass` and `innergroup` are their `refid`.
pub record Compounddef : Type 0 where
  pub id : Option Text
  pub compoundname : Text
  pub title : Bit
  pub innerclass : List Text
  pub innergroup : List Text
  pub sectiondef : List Sectiondef
  pub briefdescription : Option Bit
  pub detaileddescription : Option Bit

-- `a == b` for values that may be `None`.
abbrev pub option_text_eq : Option Text → Option Text → Bool
option_text_eq none none = Bool.true
option_text_eq none (some b) = Bool.false
option_text_eq (some a) none = Bool.false
option_text_eq (some a) (some b) = text_eq a b

pub data Found : Type 0 where
  compound : Compounddef → Found
  member : Memberdef → Found

-- `sectiondefTypeSub.find`, with the `refid` that is searched for.
unfoldable pub find_memberdef : Option Text → List Memberdef → Option Memberdef
unfolding text_eq
find_memberdef refid [] = none
find_memberdef refid (m ∷ ms) =
    if option_text_eq m.id refid then some m else find_memberdef refid ms

-- The loop of `compounddefTypeSub.find`.
unfoldable pub find_in_sections : Option Text → List Sectiondef → Option Memberdef
unfolding find_memberdef
find_in_sections refid [] = none
find_in_sections refid (s ∷ ss) = elim (find_memberdef refid s.memberdef) [
  | none ↦ find_in_sections refid ss
  | some m ↦ some m
]

-- `DoxygenTypeSub.find`, which hands over to `compounddefTypeSub.find`.
unfoldable pub find : Option Text → Compounddef → Option Found
unfolding find_in_sections
find refid c =
    if option_text_eq c.id refid
    then some (compound c)
    else elim (find_in_sections refid c.sectiondef) [ none ↦ none | some m ↦ some (member m) ]
