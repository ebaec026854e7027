-- ===== src/Exc.antt =====
-- Python exceptions as values: what a call of the documentation tools may raise.
use sdrportal.Prelude.{Text}

pub data Exc : Type 0 where
  -- Base.Duplicate, Base.NoSuchMember and Base.ParsingError of doxyxml/base.py
  duplicate no_such_member parsing_error : Exc
  -- a StandardError raised with a message
  standard_error : Text → Exc
  -- the interpreter's own: an attribute of an object that lacks it, a missing key, an operand of a
  -- wrong type, a text that is no number, a text outside the encoding, an index out of range, and
  -- SystemExit
  attribute_error key_error type_error value_error unicode_error index_error system_exit : Exc

pub data Result {ℓ} (A : Type ℓ) : Type ℓ where
  ok : A → Result A
  err : Exc → Result A

infixl 5 ◌>>=◌ ◌>>◌
abbrev pub ◌>>=◌ {ℓ κ} : {A : Type ℓ} {B : Type κ} → Result A → (A → Result B) → Result B
ok a >>= f = f a
err e >>= f = err e

abbrev pub ◌>>◌ {ℓ κ} : {A : Type ℓ} {B : Type κ} → Result A → Result B → Result B
m >> k = m >>= λ _. k

abbrev pub map_result {ℓ κ} : {A : Type ℓ} {B : Type κ} → (A → B) → Result A → Result B
map_result f (ok a) = ok (f a)
map_result f (err e) = err e

-- `P` holds of the result, if there is one.
abbrev pub Good {ℓ κ} : {A : Type ℓ} → (A → Type κ) → Result A → Type κ
Good P (ok a) = P a
Good P (err e) = Unit

pub any-Good {ℓ} : {A : Type ℓ} (r : Result A) → Good (λ a. Unit {0}) r
any-Good (ok a) = tt
any-Good (err e) = tt
