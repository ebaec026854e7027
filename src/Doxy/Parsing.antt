-- ===== src/Doxy/Parsing.antt =====
-- When a doxyxml object parses: `DoxyIndex._parse`, and `check_parsed`, `confirm_no_error`, `error`,
-- `data`, `members` and `name` of base.py.
pub mod Faults
pub mod FirstUse
pub mod FromXml
pub mod GroupUse
pub mod Inner
pub mod MemberUse
pub mod Params
pub mod Readable
mod Tests
use sdrportal.Prelude.{Text, codes, Option, none, some, List, [], ◌∷◌, Bool, if◌then◌else◌}
use sdrportal.Exc.{ok, attribute_error}
use sdrportal.Str.{ends_with}
use sdrportal.Index.{CompoundType}
use sdrportal.Doxy.Classes.{Cls, doxy_index, doxy_file, cls_eq}
use sdrportal.Doxy.State.{
  Listed, ObjId, ParseData, directory, listed, memberdef, param, World, Described, M, ◌>>=◌, ◌>>◌,
  pure, raise, lift, read,
}
use sdrportal.Doxy.Objects.{class_of, convert_mem}
use sdrportal.Index.Build.{parse}
use sdrportal.Doxy.Leaves.{
  mark_parsed, append_all, retrieved_compound, parse_below, members_below, unless_parsed, no_error,
}

module _ (w : World) where
  abbrev pub listed_of : CompoundType → Listed
  listed_of c = record {
    kind = c.kind;
    refid = c.refid;
    name = elim c.name [ none ↦ [] | some n ↦ n ];
  }

  abbrev pub add_file : ObjId → Listed → Option ObjId → M (Unit {0})
  add_file self e none = raise attribute_error
  add_file self e (some converted) = do
    ms ← members_below w converted
    append_all self ms
    append_all self (some converted ∷ [])

  -- The body of the loop of `DoxyIndex._parse`, once the class of the compound is known.
  abbrev pub add_compound : ObjId → Listed → Option ObjId → Cls → M (Unit {0})
  add_compound self e converted c =
      if cls_eq c doxy_file
      then (if ends_with (codes ".h") e.name then add_file self e converted else pure tt)
      else append_all self (converted ∷ [])

  unfoldable pub compounds_loop : ObjId → List CompoundType → M (Unit {0})
  unfolding convert_mem class_of members_below ends_with ◌>>=◌
  compounds_loop self [] = pure tt
  compounds_loop self (c ∷ cs) = do
    converted ← convert_mem (listed (listed_of c))
    cls ← lift (class_of (listed (listed_of c)))
    add_compound self (listed_of c) converted cls
    compounds_loop self cs

  -- `DoxyIndex._parse`
  unfoldable pub parse_index : ObjId → M (Unit {0})
  unfolding compounds_loop parse
  parse_index self = do
    mark_parsed self
    path ← (λ s. (ok s.xml_path, s))
    xml ← lift (w.index_file (w.join_path path (codes "index.xml")))
    root ← lift (parse xml)
    compounds_loop self root.compound

  abbrev pub parse_object : Cls → ObjId → M (Unit {0})
  parse_object doxy_index self = parse_index self
  parse_object c self = parse_below w c self

  -- `Base.check_parsed`
  unfoldable pub check_parsed : ObjId → M (Unit {0})
  unfolding parse_below parse_index
  check_parsed self = do o ← read self; unless_parsed w o.parsed (parse_object o.cls self)

  -- `Base.confirm_no_error`
  unfoldable pub confirm_no_error : ObjId → M (Unit {0})
  unfolding check_parsed ◌>>=◌
  confirm_no_error self = do check_parsed self; o ← read self; no_error w o.error

  -- `Base.error`
  unfoldable pub error : ObjId → M Bool
  unfolding check_parsed ◌>>=◌
  error self = do check_parsed self; o ← read self; pure o.error

  -- `Base.members`
  unfoldable pub members : ObjId → M (List (Option ObjId))
  unfolding confirm_no_error ◌>>=◌
  members self = do confirm_no_error self; o ← read self; pure o.members

  -- `Base.data`
  unfoldable pub described : ObjId → M Described
  unfolding confirm_no_error ◌>>=◌
  described self = do confirm_no_error self; o ← read self; pure o.described

  abbrev pub name_in : ObjId → Option ParseData → M Text
  name_in self (some (directory path)) = raise attribute_error
  name_in self (some (listed e)) = pure e.name
  name_in self (some (memberdef m)) = pure m.name
  name_in self (some (param p)) = raise attribute_error
  name_in self none = do
    check_parsed self
    o ← read self
    doc ← lift (retrieved_compound o.retrieved)
    -- `compounddef.name`: the attribute of a compounddef is called `compoundname`
    raise attribute_error

  -- `Base.name`
  unfoldable pub name : ObjId → M Text
  unfolding check_parsed ◌>>=◌
  name self = do o ← read self; name_in self o.parse_data
