-- ===== src/Doxy.antt =====
-- gr-sdrp/docs/doxygen/doxyxml/base.py and doxyindex.py: objects over the XML that doxygen writes,
-- parsed when they are first asked for something. The objects live in a heap, since they refer to
-- one another and are shared by their reference identifiers.
pub mod Classes
pub mod State
pub mod Heap
pub mod Objects
pub mod Leaves
pub mod Parsing
pub mod Lookup
mod Tests
