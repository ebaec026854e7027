-- ===== src/Swig/Entries/Pieces.antt =====
-- What the functions that make entries return, if they return: rules for their monad, and the form of
-- the entries.
use sdrportal.Prelude.{
  true, ◌≡◌, refl, Text, codes, List, [], ◌∷◌, ◌++◌, ◌⊎◌, inl, inr, All, Bool-cases, ◌∙◌,
}
use sdrportal.Exc.{Result, ok, err, Good, any-Good}
use sdrportal.Str.{join, has_infix}
use sdrportal.Quote.{is_ascii}
use sdrportal.Doxy.State.{State, M, ◌>>=◌, continue, pure}
use sdrportal.Swig.Text.{blank_line, entry_of, entry_text, operator_word}
use sdrportal.Swig.Text.Laws.{IsSafe, append-IsSafe, entry_unless_empty_cases}

pub record Ensures {ℓ} {A : Type 0} (P : A → Type ℓ) (m : M A) : Type ℓ where
  pub good : (s : State) → Good P (m s).0

continue-Good {ℓ κ} :
    {A B : Type 0} (P : A → Type ℓ) (Q : B → Type κ) (r : Result A) (k : A → M B) (s : State)
    → Good P r
    → ((a : A) → P a → Ensures Q (k a))
    → Good Q (continue r k s).0
continue-Good P Q (ok a) k s h g = (g a h).good s
continue-Good P Q (err e) k s h g = tt

pub bind-Ensures {ℓ κ} :
    {A B : Type 0} (P : A → Type ℓ) (Q : B → Type κ) (m : M A) (k : A → M B)
    → Ensures P m
    → ((a : A) → P a → Ensures Q (k a))
    → Ensures Q (m >>= k)
unfolding ◌>>=◌
bind-Ensures P Q m k h g = record { good = λ s. continue-Good P Q (m s).0 k (m s).1 (h.good s) g }

-- The result of the first call does not matter.
pub then-Ensures {ℓ} :
    {A B : Type 0} (Q : B → Type ℓ) (m : M A) (k : A → M B)
    → ((a : A) → Ensures Q (k a))
    → Ensures Q (m >>= k)
then-Ensures Q m k g =
    bind-Ensures (λ a. Unit {0}) Q m k (record { good = λ s. any-Good (m s).0 }) (λ a h. g a)

pub pure-Ensures {ℓ} : {A : Type 0} (P : A → Type ℓ) (a : A) → P a → Ensures P (pure a)
pure-Ensures P a h = record { good = λ s. h }

-- Nothing, or the directive for an ASCII name with a docstring in quotes which is ASCII and holds no
-- quote but behind a backslash.
abbrev pub IsEntry : Text → Type 0
IsEntry t =
    (t ≡ [])
    ⊎ ((name : Text) × (doc : Text) × (t
          ≡ codes "%feature(\"docstring\") " ++ (name ++ (codes " \"" ++ (doc ++ codes "\""))))
        × (is_ascii name ≡ true)
        × IsSafe doc)

-- Entries, with a blank line between each and the next.
pub data Entries : Text → Type 0 where
  entry : {t : Text} → IsEntry t → Entries t
  both : {t u : Text} → Entries t → Entries u → Entries (t ++ (blank_line ++ u))

pub join-Entries :
    (t : Text) (ts : List Text) → Entries t → All Entries ts → Entries (join blank_line (t ∷ ts))
unfolding join
join-Entries t [] h hs = h
join-Entries t (u ∷ ts) h (k, ks) = both h (join-Entries u ts k ks)

pub entry_of-IsEntry :
    (name suffix description : Text)
    → is_ascii name ≡ true
    → IsSafe suffix
    → IsSafe description
    → IsEntry (entry_of name suffix description)
unfolding entry_of
entry_of-IsEntry name suffix description ascii h k =
    elim (Bool-cases (has_infix operator_word name)) [
      | inl e ↦ inl (rw e refl)
      | inr e ↦ elim (entry_unless_empty_cases name (description ++ suffix)) [
        | inl empty ↦ inl (rw e empty)
        | inr whole ↦ inr (
          name,
          description ++ suffix,
          rw e (whole ∙ unfold entry_text in refl),
          ascii,
          append-IsSafe description suffix k h,
        )
      ]
    ]
