-- ===== src/Index/Find.antt =====
-- The searches of index.py. What is searched for is an object of the caller with a method `match`;
-- here it is a test on compounds and one on members.
pub mod Laws
use sdrportal.Prelude.{List, [], ◌∷◌, ◌++◌, Bool, if◌then◌else◌}
use sdrportal.Index.{MemberType, CompoundType, DoxygenType}

module _ (match_compound : CompoundType → Bool) (match_member : MemberType → Bool) where
  -- The loop of `CompoundTypeSub.find_members` over its `results`.
  unfoldable pub members_loop : List MemberType → List MemberType → List MemberType
  members_loop [] results = results
  members_loop (m ∷ ms) results =
      members_loop ms (if match_member m then results ++ m ∷ [] else results)

  -- `CompoundTypeSub.find_members`
  unfoldable pub find_members : CompoundType → List MemberType
  unfolding members_loop
  find_members c = members_loop c.member []

  -- The body of the loop of `DoxygenTypeSub.find_compounds_and_members`.
  abbrev pub add_result :
      CompoundType
      → List MemberType
      → List (CompoundType × List MemberType)
      → List (CompoundType × List MemberType)
  add_result c [] results = if match_compound c then results ++ (c, []) ∷ [] else results
  add_result c (m ∷ ms) results = results ++ (c, m ∷ ms) ∷ []

  unfoldable pub compounds_loop :
      List CompoundType
      → List (CompoundType × List MemberType)
      → List (CompoundType × List MemberType)
  unfolding find_members
  compounds_loop [] results = results
  compounds_loop (c ∷ cs) results = compounds_loop cs (add_result c (find_members c) results)

  -- `DoxygenTypeSub.find_compounds_and_members`
  unfoldable pub find_compounds_and_members : DoxygenType → List (CompoundType × List MemberType)
  unfolding compounds_loop
  find_compounds_and_members d = compounds_loop d.compound []
