-- ===== src/Index/Export.antt =====
-- `export` and its parts: how an object of indexsuper.py writes itself. A text that is not ASCII
-- raises; what had been written before that is not kept here.
use sdrportal.Prelude.{ℕ, zero, suc, Text, codes, Option, none, some, List, [], ◌∷◌, ◌++◌}
use sdrportal.Exc.{Result, ok, ◌>>=◌}
use sdrportal.Quote.{quote_attrib, quote_xml, encode_ascii}
use sdrportal.Index.{MemberType, CompoundType, DoxygenType}

-- `showIndent`
unfoldable pub show_indent : ℕ → Text
show_indent zero = []
show_indent (suc n) = codes "    " ++ show_indent n

-- ` key=value`, the value quoted and encoded
unfoldable pub encoded_attr : Text → Option Text → Result Text
encoded_attr k v = do
  value ← encode_ascii (quote_attrib v)
  ok (codes " " ++ (k ++ (codes "=" ++ value)))

-- The frame that each `export` puts round the attributes and the children.
unfoldable pub frame : ℕ → Text → Text → Option Text → Text
unfolding show_indent
frame level name attrs none =
    show_indent level ++ (codes "<" ++ (name ++ (codes " " ++ (attrs ++ codes " />\n"))))
frame level name attrs (some children) =
    show_indent level
    ++ (codes "<"
        ++ (name
            ++ (codes " "
                ++ (attrs
                    ++ (codes ">\n"
                        ++ (children
                            ++ (show_indent level ++ (codes "</" ++ (name ++ codes ">\n")))))))))

-- The element `name` inside an object.
unfoldable pub name_children : ℕ → Option Text → Result Text
unfolding show_indent
name_children level none = ok []
name_children level (some name) = do
  value ← encode_ascii (quote_xml (some name))
  ok (show_indent level ++ (codes "<name>" ++ (value ++ codes "</name>\n")))

-- The attribute `kind` is an enumeration and is not encoded, the attribute `refid` is.
unfoldable pub kind_refid : Option Text → Option Text → Result Text
unfolding encoded_attr
kind_refid kind refid = do
  ref ← encoded_attr (codes "refid") refid
  ok (codes " kind=" ++ (quote_attrib kind ++ ref))

-- `hasContent_` and `exportChildren` of MemberType: there is content if the name is not `None`.
unfoldable pub member_content : ℕ → Option Text → Result (Option Text)
unfolding name_children
member_content level none = ok none
member_content level (some name) = do children ← name_children level (some name); ok (some children)

-- `MemberType.export`
unfoldable pub member_export : ℕ → Text → MemberType → Result Text
unfolding frame member_content kind_refid
member_export level name m = do
  attrs ← kind_refid m.kind m.refid
  content ← member_content (suc level) m.name
  ok (frame level name attrs content)

unfoldable pub members_export : ℕ → List MemberType → Result Text
unfolding member_export
members_export level [] = ok []
members_export level (m ∷ ms) = do
  first ← member_export level (codes "member") m
  rest ← members_export level ms
  ok (first ++ rest)

-- `CompoundType.export`; its list of members is never `None`, so it always has content.
unfoldable pub compound_export : ℕ → Text → CompoundType → Result Text
unfolding frame name_children kind_refid members_export
compound_export level name c = do
  attrs ← kind_refid c.kind c.refid
  own ← name_children (suc level) c.name
  members ← members_export (suc level) c.member
  ok (frame level name attrs (some (own ++ members)))

unfoldable pub compounds_export : ℕ → List CompoundType → Result Text
unfolding compound_export
compounds_export level [] = ok []
compounds_export level (c ∷ cs) = do
  first ← compound_export level (codes "compound") c
  rest ← compounds_export level cs
  ok (first ++ rest)

-- `DoxygenType.export`
unfoldable pub doxygen_export : ℕ → Text → DoxygenType → Result Text
unfolding frame encoded_attr compounds_export
doxygen_export level name d = do
  attrs ← encoded_attr (codes "version") d.version
  children ← compounds_export (suc level) d.compound
  ok (frame level name attrs (some children))
