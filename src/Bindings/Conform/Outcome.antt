-- ===== src/Bindings/Conform/Outcome.antt =====
-- The outcomes of building: a value, or one of the two exceptions that a document can cause.
use sdrportal.Exc.{Result, ok, err, type_error, value_error, ◌>>=◌}
use sdrportal.Prelude.{◌≡◌, sym, subst}

-- The call returns and `P` holds of what it returns, or, if there is the fault `F`, it raises
-- TypeError, for an element where only text may stand, or ValueError, for a text that is no number.
pub data Outcome {ℓ κ} {A : Type ℓ} (F : Type 0) (P : A → Type κ) : Result A → Type (ℓ ⊔ κ) where
  good : {a : A} → P a → Outcome F P (ok a)
  type_fault : F → Outcome F P (err type_error)
  value_fault : F → Outcome F P (err value_error)

module _ {ℓ κ} {A : Type ℓ} {P : A → Type κ} where
  pub Outcome-map : {F G : Type 0} {r : Result A} → (F → G) → Outcome F P r → Outcome G P r
  Outcome-map g (good h) = good h
  Outcome-map g (type_fault f) = type_fault (g f)
  Outcome-map g (value_fault f) = value_fault (g f)

  pub Outcome-bind {ℓ' κ'} :
      {F : Type 0} {B : Type ℓ'} {Q : B → Type κ'} {r : Result A} {f : A → Result B}
      → Outcome F P r
      → ((a : A) → P a → Outcome F Q (f a))
      → Outcome F Q (r >>= f)
  Outcome-bind (good {a} h) k = k a h
  Outcome-bind (type_fault f) k = type_fault f
  Outcome-bind (value_fault f) k = value_fault f

  pub good_value : {F : Type 0} {r : Result A} → (a : A) × (r ≡ ok a) × P a → Outcome F P r
  good_value {F = F} (a, e, h) = subst (Outcome F P) (sym e) (good h)

  pub Outcome-ok : {F : Type 0} {r : Result A} {a : A} → Outcome F P r → r ≡ ok a → P a
  Outcome-ok (good h) e = subst P (cc) h
  Outcome-ok (type_fault f) e = cc
  Outcome-ok (value_fault f) e = cc
