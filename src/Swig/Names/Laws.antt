-- ===== src/Swig/Names/Laws.antt =====
-- What the two names of a block are.
use sdrportal.Prelude.{◌≡◌, ap, ◌∙◌, Text, codes, ◌∷◌, ◌++◌, false}
use sdrportal.Str.{has_char, split, join}
use sdrportal.Str.SplitJoin.{split-append, join-split}
use sdrportal.Swig.Names.{underscore, py_name, make_name}

module _ (prefix rest : Text) (h : has_char 95 prefix ≡ false) where
  split_name : split underscore (prefix ++ (95 ∷ rest)) ≡ prefix ∷ split underscore rest
  split_name = split-append 95 prefix rest h

  rest_of_name : join underscore (split underscore rest) ≡ rest
  rest_of_name = join-split underscore rest (λ e. cc)

  py_name-prefix : py_name (prefix ++ (95 ∷ rest)) ≡ rest
  unfolding py_name
  py_name-prefix = rw split_name rest_of_name

  make_name-prefix : make_name (prefix ++ (95 ∷ rest)) ≡ prefix ++ (codes "_make_" ++ rest)
  unfolding make_name
  make_name-prefix = rw split_name (rw rest_of_name)

-- A block's name with a prefix, an underscore and a rest, the prefix without underscore: `make_name`
-- puts `make` between prefix and rest, `py_name` drops the prefix, and so it does after `make_name`.
pub make_name-py_name :
    (prefix rest : Text)
    → has_char 95 prefix ≡ false
    → (make_name (prefix ++ (95 ∷ rest)) ≡ prefix ++ (codes "_make_" ++ rest))
      × (py_name (prefix ++ (95 ∷ rest)) ≡ rest)
      × (py_name (make_name (prefix ++ (95 ∷ rest))) ≡ codes "make_" ++ rest)
make_name-py_name prefix rest h = (
  make_name-prefix prefix rest h,
  py_name-prefix prefix rest h,
  ap py_name (make_name-prefix prefix rest h) ∙ py_name-prefix prefix (codes "make_" ++ rest) h,
)
