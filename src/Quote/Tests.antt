-- ===== src/Quote/Tests.antt =====
-- The quoting functions of indexsuper.py at texts with markup and quotes.
use sdrportal.Prelude.{ℕ, ◌≡◌, Text, codes, some, [], ◌∷◌, false, ◌⊎◌}
use sdrportal.Str.{has_char}
use sdrportal.Quote.{quote_xml, enclose, quote_attrib}
use sdrportal.Quote.Escape.{resolve, normalise, read_attribute}
use sdrportal.Quote.Laws.{resolve-quote_xml, quote_attrib_lem}

abbrev comparison : Text
comparison = codes "a<b && \"c\">'d'"

resolve-quote_xml_example :
    (resolve (quote_xml (some comparison)) ≡ comparison)
    × (has_char 60 (quote_xml (some comparison)) ≡ false)
    × (has_char 62 (quote_xml (some comparison)) ≡ false)
resolve-quote_xml_example = resolve-quote_xml (some comparison)

quote_attrib_lem_example :
    (q : ℕ) × (body : Text) × ((q ≡ 34) ⊎ (q ≡ 39))
    × (quote_attrib (some comparison) ≡ enclose (q ∷ []) body)
    × (has_char q body ≡ false)
    × (has_char 60 body ≡ false)
    × (read_attribute body ≡ normalise false comparison)
quote_attrib_lem_example = quote_attrib_lem (some comparison)

abbrev two_lines : Text
two_lines = codes "it's \"two\"\nlines"
