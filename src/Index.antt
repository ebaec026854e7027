-- ===== src/Index.antt =====
-- The binding of doxygen's index.xml: gr-sdrp/docs/doxygen/doxyxml/generated/indexsuper.py (classes
-- DoxygenType, CompoundType and MemberType) and index.py, which subclasses them. The children of
-- this module build objects from a document, write them, and search them.
pub mod Accessors
pub mod Build
pub mod Export
pub mod Find
pub mod Literal
pub mod ToDom
pub mod RoundTrip
pub mod Written
mod Tests
use sdrportal.Prelude.{Text, Option, none, some, List, []}

-- An attribute of an object is `None` until a document gives it.
pub record MemberType : Type 0 where
  pub kind : Option Text
  pub refid : Option Text
  pub name : Option Text

pub record CompoundType : Type 0 where
  pub kind : Option Text
  pub refid : Option Text
  pub name : Option Text
  pub member : List MemberType

pub record DoxygenType : Type 0 where
  pub version : Option Text
  pub compound : List CompoundType

-- `MemberType.factory()`: index.py registers its subclass, whose name is at first the empty text.
abbrev pub member_factory : MemberType
member_factory = record { kind = none; refid = none; name = some [] }

-- `CompoundType.factory()`
abbrev pub compound_factory : CompoundType
compound_factory = record { kind = none; refid = none; name = some []; member = [] }

-- `DoxygenType.factory()`
abbrev pub doxygen_factory : DoxygenType
doxygen_factory = record { version = none; compound = [] }
