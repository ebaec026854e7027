-- ===== src/Index/Literal.antt =====
-- `exportLiteral` and its parts: how an object of indexsuper.py writes itself as Python source.
pub mod Laws
use sdrportal.Prelude.{ℕ, suc, Text, codes, Option, none, some, List, [], ◌∷◌, ◌++◌}
use sdrportal.Exc.{Result, ok, err, attribute_error, ◌>>=◌}
use sdrportal.Quote.{quote_python, encode_ascii}
use sdrportal.Index.{MemberType, CompoundType, DoxygenType}
use sdrportal.Index.Export.{show_indent}

-- A line `kind = "…",`, or `version = …,` and `refid = …,` without quotes, for a given attribute.
unfoldable pub kind_line : ℕ → Option Text → Text
unfolding show_indent
kind_line level none = []
kind_line level (some v) = show_indent level ++ (codes "kind = \"" ++ (v ++ codes "\",\n"))

unfoldable pub attr_line : ℕ → Text → Option Text → Text
unfolding show_indent
attr_line level key none = []
attr_line level key (some v) = show_indent level ++ (key ++ (codes " = " ++ (v ++ codes ",\n")))

-- The line `name=…,`; `quote_python` asks the name for its method `find`, which `None` lacks.
unfoldable pub name_line : ℕ → Option Text → Result Text
unfolding show_indent quote_python encode_ascii
name_line level none = err attribute_error
name_line level (some n) = do
  q ← encode_ascii (quote_python n)
  ok (show_indent level ++ (codes "name=" ++ (q ++ codes ",\n")))

-- A member without a name has no content and so no children.
unfoldable pub member_literal_children : ℕ → Option Text → Result Text
unfolding name_line
member_literal_children level none = ok []
member_literal_children level (some n) = name_line level (some n)

-- `MemberType.exportLiteral`
unfoldable pub member_literal : ℕ → MemberType → Result Text
unfolding kind_line attr_line member_literal_children
member_literal level m = do
  children ← member_literal_children (suc level) m.name
  ok (kind_line (suc level) m.kind ++ (attr_line (suc level) (codes "refid") m.refid ++ children))

-- One item of a list: the call that makes it.
unfoldable pub item_literal : ℕ → Text → Text → Text
unfolding show_indent
item_literal level opening body =
    show_indent level ++ (opening ++ (body ++ (show_indent level ++ codes "),\n")))

unfoldable pub members_literal : ℕ → List MemberType → Result Text
unfolding member_literal item_literal
members_literal level [] = ok []
members_literal level (m ∷ ms) = do
  body ← member_literal level m
  rest ← members_literal level ms
  ok (item_literal level (codes "model_.member(\n") body ++ rest)

-- `CompoundType.exportLiteral`; there is always content, since the list of members is never `None`.
unfoldable pub compound_literal : ℕ → CompoundType → Result Text
unfolding name_line members_literal
compound_literal level c = do
  name ← name_line (suc level) c.name
  members ← members_literal (suc (suc level)) c.member
  ok (
      kind_line (suc level) c.kind
      ++ (attr_line (suc level) (codes "refid") c.refid
          ++ (name
              ++ (show_indent (suc level)
                  ++ (codes "member=[\n"
                      ++ (members ++ (show_indent (suc level) ++ codes "],\n")))))))

unfoldable pub compounds_literal : ℕ → List CompoundType → Result Text
unfolding compound_literal
compounds_literal level [] = ok []
compounds_literal level (c ∷ cs) = do
  body ← compound_literal level c
  rest ← compounds_literal level cs
  ok (item_literal level (codes "model_.compound(\n") body ++ rest)

-- `DoxygenType.exportLiteral`
unfoldable pub doxygen_literal : ℕ → DoxygenType → Result Text
unfolding compounds_literal
doxygen_literal level d = do
  compounds ← compounds_literal (suc (suc level)) d.compound
  ok (
      attr_line (suc level) (codes "version") d.version
      ++ (show_indent (suc level)
          ++ (codes "compound=[\n" ++ (compounds ++ (show_indent (suc level) ++ codes "],\n")))))
