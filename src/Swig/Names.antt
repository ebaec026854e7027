-- ===== src/Swig/Names.antt =====
-- `py_name` and `make_name` of swig_doc.py.
pub mod Laws
use sdrportal.Prelude.{Text, codes, List, [], ◌∷◌, ◌++◌}
use sdrportal.Str.{split, join}

abbrev pub underscore : Text
underscore = 95 ∷ []

-- `bits[0]` and `bits[1:]` of a split, which is never empty.
abbrev pub head_bit : List Text → Text
head_bit [] = []
head_bit (b ∷ bs) = b

abbrev pub tail_bits : List Text → List Text
tail_bits [] = []
tail_bits (b ∷ bs) = bs

unfoldable pub py_name : Text → Text
unfolding split join
py_name name = join underscore (tail_bits (split underscore name))

unfoldable pub make_name : Text → Text
unfolding split join
make_name name =
    let bits = split underscore name in
    head_bit bits ++ (codes "_make_" ++ join underscore (tail_bits bits))
