-- ===== src/Index/ToDom.antt =====
-- An index all of whose attributes and names are given, as an object of indexsuper.py and as the
-- document that describes it. The document is laid out as `export` indents it.
use sdrportal.Prelude.{ℕ, suc, Text, codes, some, List, [], ◌∷◌, map, All, ◌≡◌, true}
use sdrportal.Quote.{is_ascii}
use sdrportal.Dom.{Node, element, text, Nodes, nil, ◌▹◌}
use sdrportal.Index.{MemberType, CompoundType, DoxygenType}
use sdrportal.Index.Export.{show_indent}

pub record PlainMember : Type 0 where
  pub kind : Text
  pub refid : Text
  pub name : Text

pub record PlainCompound : Type 0 where
  pub kind : Text
  pub refid : Text
  pub name : Text
  pub members : List PlainMember

pub record PlainIndex : Type 0 where
  pub version : Text
  pub compounds : List PlainCompound

abbrev pub member_object : PlainMember → MemberType
member_object m = record { kind = some m.kind; refid = some m.refid; name = some m.name }

abbrev pub compound_object : PlainCompound → CompoundType
compound_object c = record {
  kind = some c.kind;
  refid = some c.refid;
  name = some c.name;
  member = map member_object c.members;
}

abbrev pub index_object : PlainIndex → DoxygenType
index_object d = record { version = some d.version; compound = map compound_object d.compounds }

abbrev pub line_break : ℕ → Node
line_break level = text (10 ∷ show_indent level)

abbrev pub name_node : Text → Node
name_node s = element (codes "name") [] (text s ▹ nil)

abbrev pub member_node : ℕ → PlainMember → Node
member_node level m =
    element (codes "member") ((codes "kind", m.kind) ∷ (codes "refid", m.refid) ∷ [])
      (line_break (suc level) ▹ name_node m.name ▹ line_break level ▹ nil)

unfoldable pub member_nodes : ℕ → List PlainMember → Nodes → Nodes
member_nodes level [] rest = rest
member_nodes level (m ∷ ms) rest =
    line_break level ▹ member_node level m ▹ member_nodes level ms rest

abbrev pub compound_node : ℕ → PlainCompound → Node
compound_node level c =
    element (codes "compound") ((codes "kind", c.kind) ∷ (codes "refid", c.refid) ∷ []) (
      line_break (suc level)
      ▹ name_node c.name
      ▹ member_nodes (suc level) c.members (line_break level ▹ nil))

unfoldable pub compound_nodes : ℕ → List PlainCompound → Nodes → Nodes
compound_nodes level [] rest = rest
compound_nodes level (c ∷ cs) rest =
    line_break level ▹ compound_node level c ▹ compound_nodes level cs rest

-- The document of an index whose root element has the given name.
unfoldable pub index_node : Text → PlainIndex → Node
unfolding compound_nodes
index_node name d =
    element name ((codes "version", d.version) ∷ [])
      (compound_nodes 1 d.compounds (line_break 0 ▹ nil))

-- What `export` encodes lies in the ASCII range; the attribute `kind` is not encoded.
abbrev pub IsAsciiMember : PlainMember → Type 0
IsAsciiMember m = (is_ascii m.refid ≡ true) × (is_ascii m.name ≡ true)

abbrev pub IsAsciiCompound : PlainCompound → Type 0
IsAsciiCompound c =
    (is_ascii c.refid ≡ true) × (is_ascii c.name ≡ true) × All IsAsciiMember c.members

abbrev pub IsAsciiIndex : PlainIndex → Type 0
IsAsciiIndex d = (is_ascii d.version ≡ true) × All IsAsciiCompound d.compounds
