-- ===== src/Index/Written.antt =====
-- About `export` of indexsuper.py, and the document of an index.
use sdrportal.Prelude.{ℕ, ◌≡◌, Text, ◌∷◌, ◌++◌}
use sdrportal.Exc.{Result, ok}
use sdrportal.Dom.{write_nodes, Nodes, nil, ◌▹◌, write_nodes}
use sdrportal.Index.Export.{show_indent}
use sdrportal.Index.ToDom.{line_break}

-- The text that a list of children adds, and the document nodes that it stands for.
abbrev Writes : Result Text → (Nodes → Nodes) → Type 0
Writes r nodes =
    (t : Text) × (r ≡ ok t)
    × ((n : ℕ) → write_nodes (nodes (line_break n ▹ nil)) ≡ 10 ∷ (t ++ show_indent n))
