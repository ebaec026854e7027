-- ===== src/Compound/Laws.antt =====
-- What a search of a compound finds.
use sdrportal.Prelude.{
  Text, Option, none, some, List, [], ◌∷◌, ◌++◌, true, false, text_eq_iff, ◌≡◌, ◌≢◌, refl, ap, All,
  ◌⊎◌, inl, inr, arith, Bool-cases,
}
use sdrportal.Compound.{
  Memberdef, Sectiondef, Compounddef, option_text_eq, compound, member, find_memberdef,
  find_in_sections, find,
}

-- The members of all sections, in order.
abbrev pub all_members : List Sectiondef → List Memberdef
all_members [] = []
all_members (s ∷ ss) = s.memberdef ++ all_members ss

-- The first member of the list with the given identifier.
abbrev pub IsFirst : Text → List Memberdef → Memberdef → Type 0
IsFirst refid ms m =
    (before : List Memberdef) × (after : List Memberdef) × (ms ≡ before ++ m ∷ after)
    × (m.id ≡ some refid)
    × All (λ x. x.id ≢ some refid) before

option_text_eq_iff :
    (a : Option Text) (b : Text)
    → (option_text_eq a (some b) ≡ true → a ≡ some b)
      × (option_text_eq a (some b) ≡ false → a ≢ some b)
option_text_eq_iff none b = (λ h. cc, λ h e. cc)
option_text_eq_iff (some a) b = (
  λ h. ap some ((text_eq_iff a b).0 h),
  λ h e. let same : a ≡ b = cc in cc ((text_eq_iff a b).1 same),
)

find_memberdef-append :
    (refid : Option Text) (xs ys : List Memberdef)
    → find_memberdef refid (xs ++ ys)
      ≡ elim (find_memberdef refid xs) [ none ↦ find_memberdef refid ys | some m ↦ some m ]
unfolding find_memberdef
find_memberdef-append refid [] ys = refl
find_memberdef-append refid (x ∷ xs) ys = ground (arith, find_memberdef-append refid xs ys)

find_in_sections_flat :
    (refid : Option Text) (ss : List Sectiondef)
    → find_in_sections refid ss ≡ find_memberdef refid (all_members ss)
unfolding find_in_sections
find_in_sections_flat refid [] = unfold find_memberdef in refl
find_in_sections_flat refid (s ∷ ss) = ground (
  arith,
  find_memberdef-append refid s.memberdef (all_members ss),
  find_in_sections_flat refid ss,
)

FoundFirst : Text → List Memberdef → Option Memberdef → Type 0
FoundFirst refid ms none = All (λ x. x.id ≢ some refid) ms
FoundFirst refid ms (some m) = IsFirst refid ms m

find_memberdef_lem :
    (refid : Text) (ms : List Memberdef) → FoundFirst refid ms (find_memberdef (some refid) ms)
unfolding find_memberdef FoundFirst
find_memberdef_lem refid [] = tt
find_memberdef_lem refid (x ∷ xs) = elim (Bool-cases (option_text_eq x.id (some refid))) [
  | inl e ↦ rw e ([], xs, refl, (option_text_eq_iff x.id refid).0 e, tt)
  | inr e ↦ rw e (
      step (find_memberdef (some refid) xs) ((option_text_eq_iff x.id refid).1 e)
        (find_memberdef_lem refid xs))
]
  where
    step :
        (o : Option Memberdef)
        → x.id ≢ some refid
        → FoundFirst refid xs o
        → FoundFirst refid (x ∷ xs) o
    step none h k = (h, k)
    step (some m) h (before, after, split, found, others) =
        (x ∷ before, after, ap (λ (l : List Memberdef). x ∷ l) split, found, (h, others))

-- The search of a compound for a reference finds the compound itself if it has that identifier;
-- otherwise the first member with it in the order of the sections, if there is one; otherwise
-- nothing.
pub find_lem :
    (refid : Text) (c : Compounddef)
    → ((c.id ≡ some refid) × (find (some refid) c ≡ some (compound c)))
      ⊎ ((c.id ≢ some refid)
          × (m : Memberdef) × IsFirst refid (all_members c.sectiondef) m
          × (find (some refid) c ≡ some (member m)))
      ⊎ ((c.id ≢ some refid)
          × All (λ x. x.id ≢ some refid) (all_members c.sectiondef)
          × (find (some refid) c ≡ none))
unfolding find FoundFirst
find_lem refid c = elim (Bool-cases (option_text_eq c.id (some refid))) [
  | inl e ↦ inl ((option_text_eq_iff c.id refid).0 e, rw e)
  | inr e ↦
      let other = (option_text_eq_iff c.id refid).1 e in
      inr (
        rw e (
          rest other (find_memberdef (some refid) (all_members c.sectiondef))
            (find_in_sections_flat (some refid) c.sectiondef)
            (find_memberdef_lem refid (all_members c.sectiondef))))
]
  where
    rest :
        c.id ≢ some refid
        → (o : Option Memberdef) → find_in_sections (some refid) c.sectiondef ≡ o
        → FoundFirst refid (all_members c.sectiondef) o
        → ((c.id ≢ some refid)
            × (m : Memberdef) × IsFirst refid (all_members c.sectiondef) m
            × (elim (find_in_sections (some refid) c.sectiondef) [
              | none ↦ none
              | some m ↦ some (member m)
            ]
                ≡ some (member m)))
          ⊎ ((c.id ≢ some refid)
              × All (λ x. x.id ≢ some refid) (all_members c.sectiondef)
              × (elim (find_in_sections (some refid) c.sectiondef) [
                | none ↦ none
                | some m ↦ some (member m)
              ]
                  ≡ none))
    rest other none same first = inr (other, first, rw same)
    rest other (some m) same first = inl (other, m, first, rw same)
