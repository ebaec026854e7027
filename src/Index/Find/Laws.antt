-- ===== src/Index/Find/Laws.antt =====
-- About the searches of index.py, and a description of them without loops.
use sdrportal.Prelude.{
  List, [], ◌∷◌, ◌++◌, map, Bool, false, ◌||◌, ◌≡◌, ◌∙◌, append_assoc, append-nil, Bool-cases, inl,
  inr, if◌then◌else◌,
}
use sdrportal.Index.{MemberType, CompoundType, DoxygenType}
use sdrportal.Index.Find.{
  members_loop, find_members, add_result, compounds_loop, find_compounds_and_members,
}

-- The elements of a list that pass a test, in order.
abbrev pub select {ℓ} : {A : Type ℓ} → (A → Bool) → List A → List A
select p [] = []
select p (x ∷ xs) = if p x then x ∷ select p xs else select p xs

abbrev pub some_pass {ℓ} : {A : Type ℓ} → (A → Bool) → List A → Bool
some_pass p [] = false
some_pass p (x ∷ xs) = p x || some_pass p xs

module _ (match_compound : CompoundType → Bool) (match_member : MemberType → Bool) where
  -- A compound is reported if it matches or one of its members does.
  abbrev pub wanted : CompoundType → Bool
  wanted c = some_pass match_member c.member || match_compound c

  abbrev pub report : CompoundType → CompoundType × List MemberType
  report c = (c, select match_member c.member)

  members_loop_lem :
      (ms results : List MemberType)
      → members_loop match_compound match_member ms results ≡ results ++ select match_member ms
  unfolding members_loop
  members_loop_lem [] results = rw append-nil
  members_loop_lem (m ∷ ms) results = elim (Bool-cases (match_member m)) [
    | inl e ↦ rw e (members_loop_lem ms (results ++ m ∷ []) ∙ rw append_assoc)
    | inr e ↦ rw e (members_loop_lem ms results)
  ]

  find_members_lem :
      (c : CompoundType) → find_members match_compound match_member c ≡ select match_member c.member
  unfolding find_members
  find_members_lem c = members_loop_lem c.member []

  add_result_lem :
      (c : CompoundType) (ms : List MemberType) (results : List (CompoundType × List MemberType))
      → add_result match_compound match_member c (select match_member ms) results
        ≡ results
          ++ (if some_pass match_member ms || match_compound c
              then (c, select match_member ms) ∷ []
              else [])
  add_result_lem c [] results = elim (Bool-cases (match_compound c)) [
    | inl e ↦ rw e
    | inr e ↦ rw e (rw append-nil)
  ]
  add_result_lem c (m ∷ ms) results = elim (Bool-cases (match_member m)) [
    | inl e ↦ rw e
    | inr e ↦ rw e (add_result_lem c ms results)
  ]

  compounds_loop_lem :
      (cs : List CompoundType) (results : List (CompoundType × List MemberType))
      → compounds_loop match_compound match_member cs results
        ≡ results ++ map report (select wanted cs)
  unfolding compounds_loop
  compounds_loop_lem [] results = rw append-nil
  compounds_loop_lem (c ∷ cs) results =
      compounds_loop_lem cs _
      ∙ rw (find_members_lem c, add_result_lem c c.member results)
          (elim (Bool-cases (wanted c)) [
            | inl e ↦ rw e (rw append_assoc)
            | inr e ↦ rw e (rw append-nil)
          ])

  -- The search reports, in order, exactly the compounds that match or have a matching member, each
  -- with all of its matching members in order.
  pub find_compounds_and_members_lem :
      (d : DoxygenType)
      → find_compounds_and_members match_compound match_member d
        ≡ map report (select wanted d.compound)
  unfolding find_compounds_and_members
  find_compounds_and_members_lem d = compounds_loop_lem d.compound []
