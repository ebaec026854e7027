-- ===== src/Bindings/Tests.antt =====
-- Runs of the bindings on a small description, and the theorems on it.
use sdrportal.Prelude.{codes, Text, none, some, [], ◌∷◌, ◌≡◌, refl}
use sdrportal.Exc.{Result, ok, err, attribute_error, type_error, value_error}
use sdrportal.Str.{strip}
use sdrportal.Dom.{element, text, Nodes, nil, ◌▹◌}
use sdrportal.Describe.{description}
use sdrportal.Describe.Laws.{flat}
use sdrportal.Bindings.Classes.{Class}
use sdrportal.Bindings.Tables.{schema}
use sdrportal.Bindings.Value.{Value, nothing, Fields}
use sdrportal.Bindings.Build.{build}
use sdrportal.Bindings.Bits.{bit_of}
use sdrportal.Bindings.View.{refids_of, compounddef_of}
use sdrportal.Compound.{Compounddef}
use sdrportal.Bindings.Conform.Viewed.{AllTexts, compounddef_of-build}
use sdrportal.Bindings.Conform.{declared}
use sdrportal.Prelude.{text_eq}
use sdrportal.Bindings.Conform.Marked.{marked}
use sdrportal.Bindings.Conform.Fluent.{description-marked}
use sdrportal.Dom.{Attrs}
use sdrportal.Bindings.Value.{instance_of}
use sdrportal.Bindings.Export.{export}
use sdrportal.Bindings.Literal.{literal}
use sdrportal.Bindings.Conform.{Conforms}
use sdrportal.Bindings.Conform.Outcome.{Outcome}
use sdrportal.Bindings.Conform.Sound.{Fault, build-Conforms}
use sdrportal.Prelude.{◌⊎◌, ◌≢◌}
use sdrportal.Bindings.Schema.{mixed}
use sdrportal.Bindings.Conform.Written.{Written}
use sdrportal.Bindings.Conform.Exported.{export-build}
use sdrportal.Bindings.Conform.Unliteral.{literal-mixed}
use sdrportal.Bindings.Conform.Described.{description-build}

-- `<para>An <ref refid="x">FM</ref> receiver<br/></para>`, inside a description.
abbrev sample : Nodes
sample =
    element (codes "para") [] (
      text (codes "An ")
      ▹ (element (codes "ref") ((codes "refid", codes "x") ∷ []) (text (codes "FM") ▹ nil)
          ▹ (text (codes " receiver") ▹ (element (codes "br") [] nil ▹ nil))))
    ▹ nil

abbrev value_or : Result Value → Value
value_or (ok v) = v
value_or (err e) = nothing

abbrev built : Value
built = value_or (build Class.description_type [] sample)

built_lem : build Class.description_type [] sample ≡ ok built
unfolding build schema
built_lem = refl

abbrev no_repr : Class → Fields → Text
no_repr c fs = codes "object"

-- The markup of the paragraph is lost to its text alone, and `export` writes only that.
export_run :
    export no_repr built 0 (codes "briefdescription")
    ≡ ok (codes "<briefdescription >    <para >An  receiver</para>\n</briefdescription>\n")
unfolding export build schema
export_run = refl

description_run : description (some (bit_of built)) ≡ ok (some (codes "An FM receiver"))
unfolding build bit_of description schema
description_run = refl

-- An element where only text may stand, and a line number that is none.
type_error_run :
    build Class.param_type []
      (element (codes "declname") [] (element (codes "b") [] nil ▹ nil) ▹ nil)
    ≡ err type_error
unfolding build schema
type_error_run = refl

value_error_run : build Class.location_type ((codes "line", codes "12a") ∷ []) nil ≡ err value_error
unfolding build schema
value_error_run = refl

build-Conforms_example :
    Outcome
      (Fault Class.description_type [] sample)
      (Conforms Class.description_type)
      (build Class.description_type [] sample)
build-Conforms_example = build-Conforms Class.description_type [] sample

export-build_example : Written (export no_repr built 1 (codes "detaileddescription"))
export-build_example =
    export-build no_repr Class.description_type [] sample built 1 (codes "detaileddescription")
      built_lem

literal-mixed_example :
    (((schema Class.description_type).shape ≡ mixed) × (literal none built 2 ≡ err attribute_error))
    ⊎ (((schema Class.description_type).shape ≢ mixed) × (t : Text) × (literal none built 2 ≡ ok t))
unfolding schema
literal-mixed_example = literal-mixed Class.description_type [] sample built none 2 tt built_lem

description-build_example :
    description (some (bit_of built)) ≡ ok (some (strip (flat (bit_of built))))
unfolding schema
description-build_example = description-build Class.description_type [] sample built tt built_lem

-- A class with an inner class, and a section with a function and its parameter.
abbrev compound_attrs : Attrs
compound_attrs = (codes "id", codes "class_a") ∷ (codes "kind", codes "class") ∷ []

abbrev compound_nodes : Nodes
compound_nodes =
    element (codes "compoundname") [] (text (codes "A") ▹ nil)
    ▹ (element (codes "innerclass") ((codes "refid", codes "class_b") ∷ []) (text (codes "B") ▹ nil)
        ▹ (element (codes "sectiondef") [] (
              element (codes "memberdef") ((codes "kind", codes "function") ∷ []) (
                element (codes "name") [] (text (codes "f") ▹ nil)
                ▹ (element (codes "param") []
                      (element (codes "declname") [] (text (codes "x") ▹ nil) ▹ nil)
                    ▹ nil))
              ▹ nil)
            ▹ (element (codes "briefdescription") [] sample ▹ nil)))

abbrev fields_of : Value → Fields
fields_of (instance_of c fs) = fs
fields_of v = Fields.end

abbrev compound_fields : Fields
compound_fields = fields_of (value_or (build Class.compounddef_type compound_attrs compound_nodes))

compound_built :
    build Class.compounddef_type compound_attrs compound_nodes
    ≡ ok (instance_of Class.compounddef_type compound_fields)
unfolding build schema
compound_built = refl

inner_classes : refids_of (codes "innerclass") compound_fields ≡ some (codes "class_b" ∷ [])
unfolding build schema refids_of
inner_classes = refl

inner_groups : refids_of (codes "innergroup") compound_fields ≡ some []
unfolding build schema refids_of
inner_groups = refl

compounddef_of-build_example :
    (d : Compounddef) × (compounddef_of compound_fields ≡ some d) × AllTexts d
compounddef_of-build_example =
    compounddef_of-build compound_attrs compound_nodes compound_fields (codes "class_b" ∷ []) []
      compound_built inner_classes inner_groups

description-marked_example :
    description (some (bit_of built)) ≡ ok (some (strip (marked Class.description_type sample)))
unfolding declared schema text_eq
description-marked_example =
    description-marked Class.description_type [] sample built (tt, refl) built_lem

-- The line break inside the paragraph is not known to its class.
marked_run : marked Class.description_type sample ≡ codes "An FM receiver\n\n"
unfolding marked schema
marked_run = refl

-- What objects of two other classes write.
abbrev code_line : Value
code_line = value_or (
    build Class.codeline_type ((codes "lineno", codes " 012 ") ∷ (codes "refid", codes "a<b") ∷ [])
      (element (codes "highlight") ((codes "class", codes "k") ∷ []) (text (codes "int") ▹ nil)
        ▹ nil))

code_line_run :
    export no_repr code_line 0 (codes "codeline")
    ≡ ok (
        codes
          "<codeline  lineno=\"12\" refid=\"a&lt;b\">\n    <highlight  class=\"k\">int</highlight>\n</codeline>\n")
unfolding export build schema
code_line_run = refl

abbrev location : Value
location =
    value_or (
      build Class.location_type ((codes "line", codes "-12") ∷ (codes "file", codes "f.h") ∷ [])
        nil)

location_run :
    literal (some (codes "model_.location(\n")) location 0
    ≡ ok (codes "model_.location(\n    line = -12,\n    file = f.h,\n    valueOf_ = \"\",\n),\n")
unfolding literal build schema
location_run = refl
