-- ===== src/Describe.antt =====
-- gr-sdrp/docs/doxygen/doxyxml/text.py: the plain text of a description that doxygen marked up.
pub mod Laws
mod Tests
use sdrportal.Prelude.{Text, codes, Option, none, some, List, [], ◌∷◌, ◌++◌, text_eq, if◌then◌else◌}
use sdrportal.Exc.{Result, ok, err, standard_error, ◌>>=◌, map_result}
use sdrportal.Str.{strip}

-- What `description_bit` tells apart: a text; an object by the first of the attributes `content`,
-- `content_` and `value` that it has, with its attribute `name` if it has one; anything else.
mutual
  pub data Bit : Type 0 where
    str : Text → Bit
    content : Option Text → Bits → Bit
    content_ : Option Text → Bits → Bit
    value : Option Text → Bit → Bit
    other : Bit

  pub data Bits : Type 0 where
    nil : Bits
    cons : Bit → Bits → Bits

abbrev pub expecting : Text
expecting = codes "Expecting a string or something with content, content_ or value attribute"

-- `if hasattr(obj, 'name') and obj.name == 'para': result += "\n\n"`
abbrev pub break_after : Option Text → Text → Text
break_after none t = t
break_after (some n) t = if text_eq n (codes "para") then t ++ (10 ∷ 10 ∷ []) else t

unfoldable mutual
  pub description_bit : Bit → Result Text
  description_bit (str t) = ok t
  description_bit (content name items) = map_result (break_after name) (join_bits items)
  description_bit (content_ name items) = map_result (break_after name) (join_bits items)
  description_bit (value name item) = map_result (break_after name) (description_bit item)
  description_bit other = err (standard_error expecting)

  -- `''.join([description_bit(item) for item in items])`
  pub join_bits : Bits → Result Text
  join_bits nil = ok []
  join_bits (cons b bs) = do t ← description_bit b; u ← join_bits bs; ok (t ++ u)

unfoldable pub description : Option Bit → Result (Option Text)
unfolding description_bit strip
description none = ok none
description (some obj) = map_result (λ t. some (strip t)) (description_bit obj)
