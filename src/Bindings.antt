-- ===== src/Bindings.antt =====
-- gr-sdrp/docs/doxygen/doxyxml/generated/compoundsuper.py with compound.py: the objects that are
-- built from the XML file of a compound, and what they write.
pub mod Classes
pub mod Schema
pub mod Tables
pub mod Value
pub mod Names
pub mod Decimal
pub mod Parts
pub mod Export
pub mod Literal
pub mod Accessors
pub mod Build
pub mod Constructors
pub mod Subs
pub mod Bits
pub mod View
pub mod Conform
mod Tests
