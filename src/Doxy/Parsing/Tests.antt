-- ===== src/Doxy/Parsing/Tests.antt =====
-- The first use of objects over small documents.
use sdrportal.Prelude.{
  ◌≡◌, refl, codes, text_eq, Option, none, some, List, [], ◌∷◌, if◌then◌else◌, inl, All,
}
use sdrportal.Exc.{ok, err, key_error, Result}
use sdrportal.Dom.{Attrs, element, text, Nodes, nil, ◌▹◌}
use sdrportal.Describe.{Bit}
use sdrportal.Describe.Laws.{IsText}
use sdrportal.Compound.{Memberdef, Compounddef}
use sdrportal.Bindings.Classes.{Class}
use sdrportal.Bindings.Tables.{schema}
use sdrportal.Bindings.Value.{Value, nothing, instance_of, Fields}
use sdrportal.Bindings.View.{compounddef_of}
use sdrportal.Bindings.Build.{build}
use sdrportal.Doxy.Classes.{doxy_class, doxy_function, doxy_group}
use sdrportal.Doxy.State.{ObjId, World, document, no_file, memberdef, Obj, State}
use sdrportal.Doxy.Heap.{At}
use sdrportal.Doxy.Objects.{class_of, memberdefs_of, new_object}
use sdrportal.Doxy.Objects.Firsts.{firsts}
use sdrportal.Doxy.Objects.Conversion.{IsPrintable, Represent}
use sdrportal.Doxy.Parsing.{confirm_no_error}
use sdrportal.Doxy.Parsing.Readable.{IsReadable, read_object, Keeps}
use sdrportal.Doxy.Parsing.FirstUse.{confirm_no_error-IsReadable}
use sdrportal.Doxy.Parsing.Inner.{Refer}
use sdrportal.Doxy.Parsing.GroupUse.{confirm_no_error-group, read_group}
use sdrportal.Doxy.Parsing.MemberUse.{confirm_no_error-function, read_function}
use sdrportal.Doxy.Parsing.Params.{ParamObjects}
use sdrportal.Doxy.Parsing.FromXml.{confirm_no_error-build, IsUsable, IsMember}

-- A class with one function.
abbrev class_attrs : Attrs
class_attrs = (codes "id", codes "c1") ∷ (codes "kind", codes "class") ∷ []

abbrev class_nodes : Nodes
class_nodes =
    element (codes "compoundname") [] (text (codes "sdrp_sink") ▹ nil)
    ▹ (element (codes "sectiondef") [] (
          element (codes "memberdef") ((codes "kind", codes "function") ∷ [])
            (element (codes "name") [] (text (codes "work") ▹ nil) ▹ nil)
          ▹ nil)
        ▹ nil)

abbrev value_or : Result Value → Value
value_or (ok v) = v
value_or (err e) = nothing

abbrev fields_of : Value → Fields
fields_of (instance_of c fs) = fs
fields_of v = Fields.end

abbrev class_fields : Fields
class_fields = fields_of (value_or (build Class.compounddef_type class_attrs class_nodes))

abbrev work : Memberdef
work = record {
  kind = some (codes "function");
  id = none;
  name = codes "work";
  param = record { declname = codes "n"; briefdescription = none } ∷ [];
  briefdescription = some (Bit.str (codes " Works. "));
  detaileddescription = none;
}

-- What doxyxml sees of the class, without parameters of the function.
abbrev class_def : Compounddef
class_def = record {
  id = some (codes "c1");
  compoundname = codes "sdrp_sink";
  title = Bit.str [];
  innerclass = [];
  innergroup = [];
  sectiondef =
      record { kind = none; memberdef = record work { param = []; briefdescription = none } ∷ [] }
      ∷ [];
  briefdescription = none;
  detaileddescription = none;
}

abbrev group_def : Compounddef
group_def = record class_def {
  title = Bit.str (codes " Radio blocks");
  innerclass = codes "c1" ∷ codes "c2" ∷ codes "c1" ∷ [];
  innergroup = codes "g2" ∷ [];
}

class_built :
    build Class.compounddef_type class_attrs class_nodes
    ≡ ok (instance_of Class.compounddef_type class_fields)
unfolding build schema
class_built = refl

class_seen : compounddef_of class_fields ≡ some class_def
unfolding build schema compounddef_of
class_seen = refl

class_kinds : All IsMember (memberdefs_of class_def.sectiondef)
class_kinds = ((λ e. cc, λ e. cc, λ e. cc), tt)

class-IsPrintable : All IsPrintable (memberdefs_of class_def.sectiondef)
unfolding class_of
class-IsPrintable = (tt, tt)

group-IsPrintable : All IsPrintable (memberdefs_of group_def.sectiondef)
unfolding class_of
group-IsPrintable = (tt, tt)

abbrev small_files : World
small_files = record {
  join_path = λ a b. b;
  index_file = λ f. err key_error;
  compound_file = λ f.
      if text_eq f (codes "c1.xml")
      then document (some class_def)
      else if text_eq f (codes "g1.xml")
      then document (some group_def)
      else no_file;
}

abbrev unread_class : Obj
unread_class = record (new_object doxy_class none) { refid = some (codes "c1") }

abbrev unread_group : Obj
unread_group = record (new_object doxy_group none) { refid = some (codes "g1") }

abbrev unread_function : Obj
unread_function = new_object doxy_function (some (memberdef work))

-- The class is known by its reference, the group is not.
abbrev three_objects : State
three_objects = record {
  heap = unread_class ∷ unread_group ∷ unread_function ∷ [];
  refs = (codes "c1", 0) ∷ [];
  xml_path = [];
  printed = [];
}

class-IsReadable : IsReadable small_files 0 unread_class class_def three_objects
unfolding text_eq
class-IsReadable = record {
  at = refl;
  unparsed = refl;
  fine = refl;
  refid = codes "c1";
  named = refl;
  holds = refl;
}

group-IsReadable : IsReadable small_files 1 unread_group group_def three_objects
unfolding text_eq
group-IsReadable = record {
  at = refl;
  unparsed = refl;
  fine = refl;
  refid = codes "g1";
  named = refl;
  holds = refl;
}

confirm_no_error-IsReadable_example :
    (cs : List (Option ObjId)) × (s' : State) × (confirm_no_error small_files 0 three_objects
      ≡ (ok tt, s'))
    × At 0 (read_object class_def cs unread_class) s'
    × Represent cs (firsts (memberdefs_of class_def.sectiondef)) s'
    × Keeps 0 three_objects s'
    × (confirm_no_error small_files 0 s' ≡ (ok tt, s'))
confirm_no_error-IsReadable_example =
    confirm_no_error-IsReadable small_files 0 unread_class class_def three_objects class-IsReadable
      (inl refl) tt tt class-IsPrintable

confirm_no_error-build_example :
    (cs : List (Option ObjId)) × (s' : State) × (confirm_no_error small_files 0 three_objects
      ≡ (ok tt, s'))
    × At 0 (read_object class_def cs unread_class) s'
    × Represent cs (firsts (memberdefs_of class_def.sectiondef)) s'
    × All (IsUsable small_files s') cs
confirm_no_error-build_example =
    confirm_no_error-build small_files 0 unread_class three_objects class_attrs class_nodes
      class_fields class_def class_built class_seen class-IsReadable (inl refl) class_kinds
      class-IsPrintable

confirm_no_error-group_example :
    (gs : List ObjId) × (ks : List ObjId) × (cs : List (Option ObjId)) × (s' : State)
    × (confirm_no_error small_files 1 three_objects ≡ (ok tt, s'))
    × At 1 (read_group group_def gs ks cs unread_group) s'
    × Refer gs group_def.innergroup s'
    × Refer ks group_def.innerclass s'
    × Represent cs (firsts (memberdefs_of group_def.sectiondef)) s'
    × Keeps 1 three_objects s'
    × (confirm_no_error small_files 1 s' ≡ (ok tt, s'))
unfolding IsText
confirm_no_error-group_example =
    confirm_no_error-group small_files 1 unread_group group_def three_objects group-IsReadable refl
      tt group-IsPrintable

confirm_no_error-function_example :
    (is : List ObjId) × (s' : State) × (confirm_no_error small_files 2 three_objects ≡ (ok tt, s'))
    × At 2 (read_function work is unread_function) s'
    × ParamObjects is work.param s'
    × Keeps 2 three_objects s'
    × (confirm_no_error small_files 2 s' ≡ (ok tt, s'))
unfolding IsText
confirm_no_error-function_example =
    confirm_no_error-function small_files 2 unread_function work three_objects refl refl refl refl
      refl tt tt
