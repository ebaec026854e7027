-- ===== src/Dom.antt =====
-- The parts of an `xml.dom.minidom` document that the bindings of
-- gr-sdrp/docs/doxygen/doxyxml/generated read: node kinds, names, attributes, children and values.
use sdrportal.Prelude.{Text, codes, Option, none, some, List, [], ◌∷◌, ◌++◌, text_eq, if◌then◌else◌}
use sdrportal.Quote.{quote_attrib, quote_xml}
use sdrportal.Str.{split}

abbrev pub Attrs : Type 0
Attrs = List (Text × Text)

mutual
  pub data Node : Type 0 where
    element : Text → Attrs → Nodes → Node
    text comment cdata : Text → Node

  pub data Nodes : Type 0 where
    nil : Nodes
    cons : Node → Nodes → Nodes

infixr 67 ◌▹◌
abbrev pub ◌▹◌ : Node → Nodes → Nodes
n ▹ ns = cons n ns

-- `attrs.get(name)`, and the `value` of what it finds.
unfoldable pub get : Text → Attrs → Option Text
unfolding text_eq
get k [] = none
get k ((j, v) ∷ ats) = if text_eq j k then some v else get k ats

-- `node.nodeValue`: an element has none.
abbrev pub node_value : Node → Option Text
node_value (element n ats cs) = none
node_value (text s) = some s
node_value (comment s) = some s
node_value (cdata s) = some s

abbrev last_or : Text → List Text → Text
last_or d [] = d
last_or d (t ∷ ts) = last_or t ts

-- `child_.nodeName.split(':')[-1]`
unfoldable pub local_name : Text → Text
unfolding split
local_name n = last_or [] (split (codes ":") n)

-- How a document is written: the text that a reader of XML turns into the node. After the name of
-- an element with attributes stands one more blank.
unfoldable pub write_attrs : Attrs → Text
write_attrs [] = []
write_attrs ((k, v) ∷ ats) =
    codes " " ++ (k ++ (codes "=" ++ (quote_attrib (some v) ++ write_attrs ats)))

abbrev pub attrs_part : Attrs → Text
attrs_part [] = []
attrs_part (a ∷ ats) = codes " " ++ write_attrs (a ∷ ats)

unfoldable mutual
  pub write : Node → Text
  write (element n ats cs) =
      codes "<"
      ++ (n
          ++ (attrs_part ats
              ++ (codes ">" ++ (write_nodes cs ++ (codes "</" ++ (n ++ codes ">"))))))
  write (text s) = quote_xml (some s)
  write (comment s) = codes "<!--" ++ (s ++ codes "-->")
  write (cdata s) = codes "<![CDATA[" ++ (s ++ codes "]]>")

  pub write_nodes : Nodes → Text
  write_nodes nil = []
  write_nodes (cons n ns) = write n ++ write_nodes ns
