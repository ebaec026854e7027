-- ===== src/Bindings/Decimal.antt =====
-- How Python writes an integer: `'%d' % n`, and `'%s' % n`.
use sdrportal.Prelude.{ℕ, zero, suc, ◌+◌, ◌/◌, ◌%◌, Text, [], ◌∷◌, ◌++◌, Bool, ltb, if◌then◌else◌}

-- The digits of a number, for a fuel that exceeds it.
unfoldable pub decimal_from : ℕ → ℕ → Text
decimal_from zero n = []
decimal_from (suc fuel) n =
    let rest = decimal_from fuel (n / 10) in
    if ltb n 10 then (48 + n) ∷ [] else rest ++ ((48 + n % 10) ∷ [])

unfoldable pub decimal : ℕ → Text
unfolding decimal_from
decimal n = decimal_from (suc n) n

-- With the sign.
unfoldable pub integer_text : Bool → ℕ → Text
unfolding decimal
integer_text minus n = if minus then 45 ∷ decimal n else decimal n
