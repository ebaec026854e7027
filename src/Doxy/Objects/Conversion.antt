-- ===== src/Doxy/Objects/Conversion.antt =====
-- What `convert_mem` makes of a memberdef.
use sdrportal.Prelude.{
  Option, none, some, List, [], ◌∷◌, ◌++◌, true, length, ◌≡◌, ◌≢◌, refl, Bool-cases, inl, inr,
  subst, ◌⊎◌, sym, All,
}
use sdrportal.Exc.{Exc, Result, ok, err, unicode_error}
use sdrportal.Quote.{is_ascii}
use sdrportal.Compound.{Memberdef}
use sdrportal.Doxy.Classes.{Cls}
use sdrportal.Doxy.State.{ObjId, memberdef, Obj, State, get_obj?}
use sdrportal.Doxy.Heap.{length-fresh, At, get_obj?-snoc, get_obj?-append}
use sdrportal.Doxy.Objects.{message, print_error, new_object, class_of, convert_mem}

-- The member that stands for a memberdef: `None` if no class was found for it, otherwise a new
-- object of that class.
abbrev pub IsObjectOf : Option ObjId → Memberdef → State → Type 0
IsObjectOf none m s = (e : Exc) × (class_of (memberdef m) ≡ err e)
IsObjectOf (some i) m s =
    (c : Cls) × (class_of (memberdef m) ≡ ok c) × At i (new_object c (some (memberdef m))) s

abbrev pub Represent : List (Option ObjId) → List Memberdef → State → Type 0
Represent [] [] s = Unit
Represent [] (m ∷ ms) s = ⊥
Represent (c ∷ cs) [] s = ⊥
Represent (c ∷ cs) (m ∷ ms) s = IsObjectOf c m s × Represent cs ms s

-- Objects other than `self` stay as they are.
abbrev pub Keeps : ObjId → State → State → Type 0
Keeps self s s' = (i : ObjId) (v : Obj) → i ≢ self → At i v s → At i v s'

pub Result-cases {ℓ} :
    {A : Type ℓ} (r : Result A) → ((a : A) × (r ≡ ok a)) ⊎ ((e : Exc) × (r ≡ err e))
Result-cases (ok a) = inl (a, refl)
Result-cases (err e) = inr (e, refl)

pub some_injective : {i j : ObjId} → some i ≡ some j → i ≡ j
some_injective h = cc

-- A class was found for the memberdef, or the message that none was found is ASCII and can be printed.
abbrev pub Printable : Result Cls → Type 0
Printable (ok c) = Unit
Printable (err e) = is_ascii (message e) ≡ true

abbrev pub IsPrintable : Memberdef → Type 0
IsPrintable m = Printable (class_of (memberdef m))

-- What `convert_mem` does to a memberdef in the state `s`.
pub record Conversion (m : Memberdef) (s : State) : Type 0 where
  pub converted : Option ObjId
  pub after : State
  pub runs : convert_mem (memberdef m) s ≡ (ok converted, after)
  pub keeps : (i : ObjId) (v : Obj) → At i v s → At i v after
  pub stands : IsObjectOf converted m after
  pub fresh : (i : ObjId) → converted ≡ some i → get_obj? s.heap i ≡ none

pub conversion : (m : Memberdef) (s : State) → IsPrintable m → Conversion m s
unfolding convert_mem print_error
conversion m s fine = elim (Result-cases (class_of (memberdef m))) [
  | inr (e, no_class) ↦ record {
    converted = none;
    after = record s { printed = s.printed ++ message e ∷ [] };
    runs =
        let prints : is_ascii (message e) ≡ true = subst Printable no_class fine in
        rw no_class (rw prints refl);
    keeps = λ i v h. h;
    stands = (e, no_class);
    fresh = λ i h. cc;
  }
  | inl (c, found) ↦ record {
    converted = some (length s.heap);
    after = record s { heap = s.heap ++ new_object c (some (memberdef m)) ∷ [] };
    runs = rw found (rw get_obj?-snoc);
    keeps = λ i v h. get_obj?-append s.heap _ i v h;
    stands = (c, found, get_obj?-snoc s.heap _);
    fresh = λ i h.
        subst (λ (j : ObjId). get_obj? s.heap j ≡ none) (some_injective h) (length-fresh s.heap);
  }
]

-- One of the memberdefs cannot be printed, and those before it can.
abbrev pub SomeUnprintable : List Memberdef → Type 0
SomeUnprintable [] = ⊥
SomeUnprintable (m ∷ ms) = (¬ IsPrintable m) ⊎ (IsPrintable m × SomeUnprintable ms)

Printable-cases : (r : Result Cls) → Printable r ⊎ (¬ Printable r)
Printable-cases (ok c) = inl tt
Printable-cases (err e) = elim (Bool-cases (is_ascii (message e))) [
  | inl h ↦ inl h
  | inr h ↦ inr (λ p. cc)
]

pub IsPrintable-cases : (ms : List Memberdef) → All IsPrintable ms ⊎ SomeUnprintable ms
IsPrintable-cases [] = inl tt
IsPrintable-cases (m ∷ ms) = elim (Printable-cases (class_of (memberdef m))) [
  | inr bad ↦ inr (inl bad)
  | inl fine ↦ elim (IsPrintable-cases ms) [
    | inl all ↦ inl (fine, all)
    | inr bad ↦ inr (inr (fine, bad))
  ]
]

pub SomeUnprintable-not : (ms : List Memberdef) → SomeUnprintable ms → ¬ All IsPrintable ms
SomeUnprintable-not [] bad all = bad
SomeUnprintable-not (m ∷ ms) (inl bad) (fine, all) = bad fine
SomeUnprintable-not (m ∷ ms) (inr (f, bad)) (fine, all) = SomeUnprintable-not ms bad all

pub convert_mem-raises :
    (m : Memberdef) (s : State)
    → ¬ IsPrintable m
    → convert_mem (memberdef m) s ≡ (err unicode_error, s)
unfolding convert_mem print_error
convert_mem-raises m s bad = elim (Result-cases (class_of (memberdef m))) [
  | inl (c, found) ↦ absurd (bad (subst Printable (sym found) tt))
  | inr (e, no_class) ↦ elim (Bool-cases (is_ascii (message e))) [
    | inl h ↦ absurd (bad (subst Printable (sym no_class) h))
    | inr h ↦ rw no_class (rw h refl)
  ]
]
