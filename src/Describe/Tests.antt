-- ===== src/Describe/Tests.antt =====
-- text.py at a description of one paragraph.
use sdrportal.Prelude.{◌≡◌, codes, some, ◌⊎◌}
use sdrportal.Exc.{ok, err, standard_error}
use sdrportal.Str.{strip}
use sdrportal.Describe.{Bit, str, content, nil, cons, expecting, description}
use sdrportal.Describe.Laws.{IsText, flat, description-cases}

abbrev paragraph : Bit
paragraph = content (some (codes "para")) (cons (str (codes " A sink. ")) nil)

description-cases_example :
    (IsText paragraph × (description (some paragraph) ≡ ok (some (strip (flat paragraph)))))
    ⊎ ((¬ IsText paragraph) × (description (some paragraph) ≡ err (standard_error expecting)))
description-cases_example = description-cases paragraph
