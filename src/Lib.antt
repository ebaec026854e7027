-- ===== src/Lib.antt =====
-- SDRPortal, a portal for software defined radios. The Python of the repository is of two kinds,
-- and both are modelled here: the scripts that turn the doxygen documentation of the C++ blocks into
-- a SWIG interface file (gr-sdrp/docs/doxygen), and the programs that receive FM stereo with RDS
-- (gr-sdrp/python and gr-sdrportal/python).
--
-- The documentation scripts. doxygen writes a directory of XML files, an index and one file for each
-- compound. generated/indexsuper.py and generated/index.py read the index, generated/compound.py the
-- compounds; doxyxml/base.py and doxyxml/doxyindex.py wrap what was read in objects that are parsed
-- when they are first asked, share one table of references, and are found by category and name;
-- doxyxml/text.py takes the text out of descriptions; swig_doc.py walks the objects and writes the
-- docstrings.
--   Quote               quote_xml, quote_attrib, quote_python of indexsuper.py
--   Dom                 a DOM tree, as far as the bindings read it, and its text
--   Index               the classes of indexsuper.py; Accessors: the methods that change a field;
--                       Build: build and parse; Export: export; Literal: exportLiteral; Find:
--                       find_compounds_and_members; ToDom, RoundTrip, Written: an index as a document
--   Describe            description and description_bit of text.py
--   Compound            what compound.py builds, and its find
--   Bindings            the classes of compoundsuper.py with the changes of compound.py. A generator
--                       wrote them from one schema, and every method is one of a few texts: Schema
--                       is what differs, Tables the schema of each class; Value: the objects;
--                       Constructors: __init__ of both modules and factory, Subs the subclasses of
--                       compound.py; Accessors: the methods for one field; Build: build and parse;
--                       Parts, Export: export; Literal: exportLiteral; Decimal: integers as text;
--                       Bits: an
--                       object as description sees it; View: a compounddef as doxyxml sees it;
--                       Conform: the types of the fields, and what follows from them, down to the
--                       text of a description
--   Doxy                Classes: the classes of doxyindex.py and get_cls; State: the heap and the
--                       monad of methods; Heap: its laws; Objects: the constructors, convert_mem and
--                       process_memberdefs of base.py; Leaves: _parse of all classes but the index;
--                       Parsing: _parse of the index and the methods that parse first, and what
--                       the first use of an object does to the heap; Lookup:
--                       in_category, _get_dict_members, get_member, has_member
--   Swig                Names: py_name, make_name; Text: utoascii and the text of an entry;
--                       Entries: Block.includes and the make_... functions; File: the interface file
--                       and the command line; Entries.Pieces, File.Safe: the form of the text
--
-- The receivers. Each program parses its options and builds one GNU Radio flow graph.
--   Receiver            Graph: blocks and connections; Sections: the parts that the three programs
--                       share; Programs: sdrp_rds_rx.py and both files sdrp_rds_rx_ws.py; Signature:
--                       the documented streams of the blocks; Checks, Wiring: what a good graph is
--
-- Shared: Prelude (names of the libraries, texts as lists of code points, Boolean tests), Str (the
-- methods of Python's str), Exc (exceptions as values).
--
-- Bounds and fuel. Python's integers do not overflow, and no width is assumed. The only fuel is that
-- of get_member, one more than the length of the name, and that of the digits of a number, one more
-- than the number. All other loops are structural.
--
-- Parameters. A World gives what a file parses to and how paths are joined. Floats gives the
-- floating point numbers of the receivers, Signature the streams of GNU Radio's blocks, with
-- IsDocumented for what is documented of them. In Doxy.Lookup the test of a category that
-- doxyindex.py does not know is an argument; Swig.Entries fills it with Block.includes. In
-- Bindings.Export the text of an object for `%s`, which holds its address, is an argument.
--
-- Not modelled: a reference to an inner class or group without refid, which doxyxml would look up
-- as None; minidom and expat; digits outside ASCII in `int`; the writing of the output file; what
-- export and exportLiteral have written when they raise; indexsuper.py and compoundsuper.py run as
-- programs, that is their parse functions and main without the subclasses of index.py and compound.py,
-- and their SAX handlers; negative indexes in insert; a rate of zero in the receivers;
-- braces in a parameter's name, which str.format would read as a field; the C++ blocks and the portal
-- server; the web pages; the build files. The copies of the scripts in gr-sdrportal have the same text
-- and are not named again.
pub mod Prelude
pub mod Str
pub mod Exc
pub mod Quote
pub mod Dom
pub mod Describe
pub mod Compound
pub mod Bindings
pub mod Index
pub mod Doxy
pub mod Swig
pub mod Receiver
