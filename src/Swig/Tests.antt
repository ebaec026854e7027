-- ===== src/Swig/Tests.antt =====
-- A small library with one block, run through swig_doc.py, and instances of the theorems.
use sdrportal.Prelude.{Text, codes, Option, none, some, List, [], ◌∷◌, ◌++◌, text_eq, if◌then◌else◌}
use sdrportal.Exc.{ok}
use sdrportal.Describe.{Bit}
use sdrportal.Describe
use sdrportal.Compound.{Param, Memberdef, Compounddef}
use sdrportal.Index.ToDom.{member_nodes, PlainIndex, index_node}
use sdrportal.Doxy.State.{World, no_file, document}
use sdrportal.Swig.File.{banner, main}
use sdrportal.Swig.File.Safe.{IsFile, main-IsFile}
use sdrportal.Prelude.{◌≡◌, refl, true, false}
use sdrportal.Str.{has_char}
use sdrportal.Quote.{is_ascii}
use sdrportal.Swig.Names.{make_name, py_name}
use sdrportal.Swig.Names.Laws.{make_name-py_name}
use sdrportal.Swig.Text.{encode_replace, utoascii}
use sdrportal.Swig.Text.Laws.{escaped, unescape, utoascii_lem}

abbrev no_param : List Param
no_param = []

abbrev para : Text → Option Bit
para s = some (
    Bit.content_ none (
      Describe.cons (Bit.content (some (codes "para")) (Describe.cons (Bit.str s) Describe.nil))
        Describe.nil))

abbrev memberdef_of : Text → Text → List Param → Memberdef
memberdef_of kind name params = record {
  kind = some kind;
  id = none;
  name = name;
  param = params;
  briefdescription = para (codes "says \"hi\"");
  detaileddescription = para [];
}

abbrev one_param : List Param
one_param = record { declname = codes "port"; briefdescription = none } ∷ []

abbrev class_file : Compounddef
class_file = record {
  id = some (codes "c1");
  compoundname = codes "sdrp_sink";
  title = Bit.str [];
  innerclass = [];
  innergroup = [];
  sectiondef =
      record {
        kind = none;
        memberdef =
            memberdef_of (codes "friend") (codes "sdrp_make_sink") []
            ∷ memberdef_of (codes "function") (codes "sdrp_sink") one_param
            ∷ memberdef_of (codes "function") (codes "work") []
            ∷ [];
      }
      ∷ [];
  briefdescription = para (codes "A sink.");
  detaileddescription = para (codes "Details.");
}

abbrev header_file : Compounddef
header_file = record {
  id = some (codes "f1");
  compoundname = codes "sdrp_sink.h";
  title = Bit.str [];
  innerclass = [];
  innergroup = [];
  sectiondef =
      record {
        kind = none;
        memberdef = memberdef_of (codes "function") (codes "sdrp_make_sink") [] ∷ [];
      }
      ∷ [];
  briefdescription = para [];
  detaileddescription = para [];
}

abbrev listing : PlainIndex
listing = record {
  version = codes "1.7";
  compounds =
      record { kind = codes "class"; refid = codes "c1"; name = codes "sdrp_sink"; members = [] }
      ∷ record { kind = codes "file"; refid = codes "f1"; name = codes "sdrp_sink.h"; members = [] }
      ∷ [];
}

abbrev small_world : World
small_world = record {
  join_path = λ a b. a ++ (codes "/" ++ b);
  index_file = λ f. ok (index_node (codes "doxygenindex") listing);
  compound_file = λ f.
      if text_eq f (codes "xml/c1.xml")
      then document (some class_file)
      else if text_eq f (codes "xml/f1.xml")
      then document (some header_file)
      else no_file;
}

abbrev whole_file : Text
whole_file =
    codes
      "\n/*\n * This file was automatically generated using swig_doc.py.\n *\n * Any changes to it will be lost next time it is regenerated.\n */\n\n\n\n\n"
    ++ (codes "%feature(\"docstring\") sdrp_sink \"A sink.\n\n"
        ++ (codes "Details.\n\n"
            ++ (codes "says \\\"hi\\\"\"\n\n"
                ++ (codes "%feature(\"docstring\") sdrp_sink::sdrp_sink \"says \\\"hi\\\"\n\n"
                    ++ (codes "Params: (port)\"\n\n"
                        ++ (codes "%feature(\"docstring\") sdrp_sink::work \"says \\\"hi\\\"\n\n"
                            ++ (codes "Params: (NONE)\"\n\n"
                                ++ (codes "%feature(\"docstring\") sdrp_make_sink \"A sink.\n\n"
                                    ++ (codes "Details.\n\n"
                                        ++ (codes "says \\\"hi\\\"\n\n"
                                            ++ (codes "Params: (port)\"")))))))))))

-- The interface file of the small library.
main_small :
    main small_world (codes "swig_doc.py" ∷ codes "xml" ∷ codes "out.i" ∷ []) ≡ ok whole_file
unfolding main index_node member_nodes
main_small = refl

main-IsFile_example : IsFile small_world (banner ∷ [] ∷ []) whole_file
main-IsFile_example =
    main-IsFile small_world (codes "swig_doc.py") (codes "xml") (codes "out.i") whole_file
      main_small

utoascii_lem_example :
    (is_ascii (utoascii (some (codes "a \"b\" \\"))) ≡ true)
    × (escaped false (utoascii (some (codes "a \"b\" \\"))) ≡ true)
    × (unescape (utoascii (some (codes "a \"b\" \\"))) ≡ encode_replace (codes "a \"b\" \\"))
utoascii_lem_example = utoascii_lem (codes "a \"b\" \\")

make_name-py_name_example :
    (make_name (codes "sdrp_sink_c") ≡ codes "sdrp_make_sink_c")
    × (py_name (codes "sdrp_sink_c") ≡ codes "sink_c")
    × (py_name (make_name (codes "sdrp_sink_c")) ≡ codes "make_sink_c")
unfolding has_char
make_name-py_name_example = make_name-py_name (codes "sdrp") (codes "sink_c") refl
