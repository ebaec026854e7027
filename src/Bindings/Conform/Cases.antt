-- ===== src/Bindings/Conform/Cases.antt =====
-- What a value of each kind can be.
use sdrportal.Prelude.{ℕ, Text, Bool, ◌≡◌, refl, sym, ap, subst}
use sdrportal.Bindings.Classes.{Class}
use sdrportal.Bindings.Tables.{schema}
use sdrportal.Bindings.Value.{
  Value, nothing, string, integer, array, instance_of, container, Values, Fields,
}
use sdrportal.Bindings.Conform.{
  maybe_text, maybe_integer, a_text, many_texts, many, titled, declared, Matches, Fits, AllItems,
  Item,
}

module _ {ℓ} (P : Value → Type ℓ) where
  pub maybe_text_cases :
      P nothing → ((t : Text) → P (string t)) → (v : Value) → Fits v maybe_text → P v
  unfolding Fits
  maybe_text_cases hn ht nothing fit = hn
  maybe_text_cases hn ht (string t) fit = ht t
  maybe_text_cases hn ht (integer m n) fit = absurd fit
  maybe_text_cases hn ht (array vs) (is, all) = absurd is
  maybe_text_cases hn ht (instance_of d fs) (of, m) = absurd of
  maybe_text_cases hn ht (container cat n w) fit = absurd fit

  pub maybe_integer_cases :
      P nothing → ((m : Bool) (n : ℕ) → P (integer m n)) → (v : Value) → Fits v maybe_integer → P v
  unfolding Fits
  maybe_integer_cases hn hi nothing fit = hn
  maybe_integer_cases hn hi (string t) fit = absurd fit
  maybe_integer_cases hn hi (integer m n) fit = hi m n
  maybe_integer_cases hn hi (array vs) (is, all) = absurd is
  maybe_integer_cases hn hi (instance_of d fs) (of, m) = absurd of
  maybe_integer_cases hn hi (container cat n w) fit = absurd fit

  pub a_text_cases : ((t : Text) → P (string t)) → (v : Value) → Fits v a_text → P v
  unfolding Fits
  a_text_cases ht nothing fit = absurd fit
  a_text_cases ht (string t) fit = ht t
  a_text_cases ht (integer m n) fit = absurd fit
  a_text_cases ht (array vs) (is, all) = absurd is
  a_text_cases ht (instance_of d fs) (of, m) = absurd of
  a_text_cases ht (container cat n w) fit = absurd fit

  pub many_texts_cases :
      ((vs : Values) → AllItems vs many_texts → P (array vs))
      → (v : Value) → Fits v many_texts
      → P v
  unfolding Fits
  many_texts_cases ha nothing fit = absurd fit
  many_texts_cases ha (string t) fit = absurd fit
  many_texts_cases ha (integer m n) fit = absurd fit
  many_texts_cases ha (array vs) (is, all) = ha vs all
  many_texts_cases ha (instance_of d fs) (of, m) = absurd of
  many_texts_cases ha (container cat n w) fit = absurd fit

  pub titled_cases :
      (c : Class)
      → P nothing
      → ((t : Text) → P (string t))
      → ((d : Class) (fs : Fields) → P (instance_of d fs))
      → (v : Value) → Fits v (titled c)
      → P v
  unfolding Fits
  titled_cases c hn ht ho nothing fit = hn
  titled_cases c hn ht ho (string t) fit = ht t
  titled_cases c hn ht ho (integer m n) fit = absurd fit
  titled_cases c hn ht ho (array vs) (is, all) = absurd is
  titled_cases c hn ht ho (instance_of d fs) (of, m) = ho d fs
  titled_cases c hn ht ho (container cat n w) fit = absurd fit

-- An item of a list of texts is a text.
pub Item-many_texts : (v : Value) → Item v many_texts → (t : Text) × (v ≡ string t)
unfolding Item
Item-many_texts nothing item = absurd item
Item-many_texts (string t) item = (t, refl)
Item-many_texts (integer m n) item = absurd item
Item-many_texts (array vs) item = absurd item
Item-many_texts (instance_of d fs) (of, m) = absurd of
Item-many_texts (container cat n nothing) item = absurd item
Item-many_texts (container cat n (string t)) item = absurd item
Item-many_texts (container cat n (integer m j)) item = absurd item
Item-many_texts (container cat n (array vs)) item = absurd item
Item-many_texts (container cat n (instance_of d fs)) (of, m) = absurd of
Item-many_texts (container cat n (container c j v)) item = absurd item

-- An item of a list of objects of a class is one.
pub Item-many :
    (c : Class) (v : Value)
    → Item v (many c)
    → (fs : Fields) × (v ≡ instance_of c fs) × Matches fs (declared (schema c))
unfolding Item
Item-many c nothing item = absurd item
Item-many c (string t) item = absurd item
Item-many c (integer m n) item = absurd item
Item-many c (array vs) item = absurd item
Item-many c (instance_of d fs) (of, m) = (
  fs,
  ap (λ x. instance_of x fs) (sym of),
  subst (λ x. Matches fs (declared (schema x))) (sym of) m,
)
Item-many c (container cat n nothing) item = absurd item
Item-many c (container cat n (string t)) item = absurd item
Item-many c (container cat n (integer m j)) item = absurd item
Item-many c (container cat n (array vs)) item = absurd item
Item-many c (container cat n (instance_of d fs)) (part, m) = absurd part
Item-many c (container cat n (container k j v)) item = absurd item
