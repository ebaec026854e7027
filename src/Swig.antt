-- ===== src/Swig.antt =====
-- gr-sdrp/docs/doxygen/swig_doc.py: the docstrings that SWIG puts into the Python modules, made from
-- the doxyxml objects.
pub mod Names
pub mod Text
pub mod Entries
pub mod File
mod Tests
