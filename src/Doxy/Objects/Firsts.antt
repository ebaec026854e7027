-- ===== src/Doxy/Objects/Firsts.antt =====
-- The names that the loop of `process_memberdefs` keeps.
use sdrportal.Prelude.{
  Text, List, [], ◌∷◌, true, text_eq, text_eq_iff, if◌then◌else◌, ◌≡◌, refl, sym, ap, ◌∙◌,
  Bool-cases, inl, inr, arith,
}
use sdrportal.Compound.{Memberdef}
use sdrportal.Doxy.Objects.{contains_name}

-- The memberdefs with another name.
abbrev pub others : Text → List Memberdef → List Memberdef
others n [] = []
others n (m ∷ ms) = if text_eq n m.name then others n ms else m ∷ others n ms

-- The first memberdef of each name, in order.
abbrev pub firsts : List Memberdef → List Memberdef
firsts [] = []
firsts (m ∷ ms) = m ∷ others m.name (firsts ms)

-- The memberdefs that the loop keeps, when it has seen some names.
unfoldable pub kept : List Text → List Memberdef → List Memberdef
kept seen [] = []
kept seen (m ∷ ms) = if contains_name m.name seen then kept seen ms else m ∷ kept (m.name ∷ seen) ms

abbrev unseen : List Text → List Memberdef → List Memberdef
unseen seen [] = []
unseen seen (m ∷ ms) = if contains_name m.name seen then unseen seen ms else m ∷ unseen seen ms

unseen-others :
    (n : Text) (seen : List Text) (ms : List Memberdef)
    → unseen (n ∷ seen) ms ≡ unseen seen (others n ms)
unfolding contains_name
unseen-others n seen [] = refl
unseen-others n seen (m ∷ ms) = ground (arith, unseen-others n seen ms)

unseen_again :
    (n : Text) (seen : List Text) (ms : List Memberdef)
    → contains_name n seen ≡ true
    → unseen seen (others n ms) ≡ unseen seen ms
unseen_again n seen [] h = refl
unseen_again n seen (m ∷ ms) h = elim (Bool-cases (text_eq n m.name)) [
  | inl e ↦
      let same : n ≡ m.name = (text_eq_iff n m.name).0 e in
      let again : contains_name m.name seen ≡ true = rw (← same) h in
      rw (e, again) (unseen_again n seen ms h)
  | inr e ↦ rw e (ground (arith, unseen_again n seen ms h))
]

kept-unseen : (seen : List Text) (ms : List Memberdef) → kept seen ms ≡ unseen seen (firsts ms)
unfolding kept
kept-unseen seen [] = refl
kept-unseen seen (m ∷ ms) = elim (Bool-cases (contains_name m.name seen)) [
  | inl e ↦ rw e (kept-unseen seen ms ∙ sym (unseen_again m.name seen (firsts ms) e))
  | inr e ↦ rw e (
      ap (λ (l : List Memberdef). m ∷ l)
        (kept-unseen (m.name ∷ seen) ms ∙ unseen-others m.name seen (firsts ms)))
]

unseen_none : (ms : List Memberdef) → unseen [] ms ≡ ms
unfolding contains_name
unseen_none [] = refl
unseen_none (m ∷ ms) = ap (λ (l : List Memberdef). m ∷ l) (unseen_none ms)

pub kept_lem : (ms : List Memberdef) → kept [] ms ≡ firsts ms
kept_lem ms = kept-unseen [] ms ∙ unseen_none (firsts ms)
