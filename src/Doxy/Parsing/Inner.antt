-- ===== src/Doxy/Parsing/Inner.antt =====
-- What the loops of `DoxyGroup._parse` over the inner groups and classes do, and which references
-- the methods keep.
use sdrportal.Prelude.{
  ◌≡◌, refl, subst, ◌∙◌, Text, none, some, List, [], ◌∷◌, ◌++◌, map, length, append_assoc,
  append-nil, arith, Option-cases, inl, inr,
}
use sdrportal.Exc.{ok}
use sdrportal.Doxy.Classes.{Cls}
use sdrportal.Doxy.State.{ObjId, World, Obj, State, ◌>>◌, lookup_ref, insert_ref}
use sdrportal.Doxy.Heap.{At, put, At-put, get_obj?-append, step_ok, modify-At}
use sdrportal.Doxy.Objects.{from_refid}
use sdrportal.Doxy.Objects.Interning.{registered, make_registered_lem, lookup_ref-registered}
use sdrportal.Doxy.Leaves.{append_all, inner_loop}
use sdrportal.Doxy.Parsing.Readable.{Keeps, put-Keeps}

-- Every reference that is known stays known, for the same object.
abbrev pub KeepsRefs : State → State → Type 0
KeepsRefs s s' =
    (r : Text) (i : ObjId) → lookup_ref r s.refs ≡ some i → lookup_ref r s'.refs ≡ some i

lookup_ref-insert_ref_known :
    (r q : Text) (i j : ObjId) (refs : List (Text × ObjId))
    → lookup_ref r refs ≡ none
    → lookup_ref q refs ≡ some j
    → lookup_ref q (insert_ref r i refs) ≡ some j
unfolding lookup_ref insert_ref
lookup_ref-insert_ref_known r q i j [] fresh known = cc
lookup_ref-insert_ref_known r q i j ((k, x) ∷ rest) fresh known =
    ground (arith, lookup_ref-insert_ref_known r q i j rest)

-- The objects that the references stand for.
abbrev pub Refer : List ObjId → List Text → State → Type 0
Refer [] [] s = Unit
Refer [] (r ∷ rs) s = ⊥
Refer (i ∷ is) [] s = ⊥
Refer (i ∷ is) (r ∷ rs) s = (lookup_ref r s.refs ≡ some i) × Refer is rs s

pub Refer-KeepsRefs :
    (is : List ObjId) (rs : List Text) (s s' : State)
    → KeepsRefs s s'
    → Refer is rs s
    → Refer is rs s'
Refer-KeepsRefs [] [] s s' keeps h = tt
Refer-KeepsRefs [] (r ∷ rs) s s' keeps h = absurd h
Refer-KeepsRefs (i ∷ is) [] s s' keeps h = absurd h
Refer-KeepsRefs (i ∷ is) (r ∷ rs) s s' keeps (h, t) =
    (keeps r i h, Refer-KeepsRefs is rs s s' keeps t)

-- `from_refid` gives an object for the reference and keeps every object and every reference.
record Reference (c : Cls) (r : Text) (s : State) : Type 0 where
  target : ObjId
  after : State
  runs : from_refid c r s ≡ (ok target, after)
  known : lookup_ref r after.refs ≡ some target
  objects : (i : ObjId) (v : Obj) → At i v s → At i v after
  references : KeepsRefs s after

reference : (c : Cls) (r : Text) (s : State) → Reference c r s
unfolding from_refid
reference c r s = elim (Option-cases (lookup_ref r s.refs)) [
  | inl fresh ↦ record {
    target = length s.heap;
    after = registered c none r s;
    runs = rw fresh (make_registered_lem c none r s);
    known = lookup_ref-registered c none r s;
    objects = unfold registered in λ i v h. get_obj?-append s.heap _ i v h;
    references =
        unfold registered in
        λ q j h. lookup_ref-insert_ref_known r q (length s.heap) j s.refs fresh h;
  }
  | inr (i, known) ↦ record {
    target = i;
    after = s;
    runs = rw known refl;
    known = known;
    objects = λ j v h. h;
    references = λ q j h. h;
  }
]

abbrev pub with_inner : List ObjId → Obj → Obj
with_inner is o = record o { members = o.members ++ map some is }

with_inner-with_inner :
    (i : ObjId) (is : List ObjId) (o : Obj)
    → with_inner is (with_inner (i ∷ []) o) ≡ with_inner (i ∷ is) o
with_inner-with_inner i is o = rw append_assoc

-- The loop succeeds and appends the objects of the references.
pub record Inner (w : World) (c : Cls) (self : ObjId) (rs : List Text) (o : Obj) (s : State)
    : Type 0 where
  pub targets : List ObjId
  pub after : State
  pub runs : inner_loop w c self rs s ≡ (ok tt, after)
  pub there : At self (with_inner targets o) after
  pub refer : Refer targets rs after
  pub keeps : Keeps self s after
  pub references : KeepsRefs s after

pub inner :
    (w : World) (c : Cls) (self : ObjId) (rs : List Text) (o : Obj) (s : State)
    → At self o s
    → Inner w c self rs o s
unfolding inner_loop
inner w c self [] o s at = record {
  targets = [];
  after = s;
  runs = refl;
  there = rw append-nil at;
  refer = tt;
  keeps = λ i v ne h. h;
  references = λ q j h. h;
}
inner w c self (r ∷ rs) o s at =
    let first = reference c r s in
    let at1 = first.objects self o at in
    let o1 = with_inner (first.target ∷ []) o in
    let s1 = put self o1 first.after in
    let rest = inner w c self rs o1 s1 (At-put self o o1 first.after at1) in
    record {
      targets = first.target ∷ rest.targets;
      after = rest.after;
      runs =
          step_ok (from_refid c r) (λ x. append_all self (some x ∷ []) >> inner_loop w c self rs) s
            first.target first.after first.runs
          ∙ step_ok (append_all self (some first.target ∷ [])) (λ _. inner_loop w c self rs)
              first.after tt s1 (modify-At self (with_inner (first.target ∷ [])) o first.after at1)
          ∙ rest.runs;
      there =
          subst (λ v. At self v rest.after) (with_inner-with_inner first.target rest.targets o)
            rest.there;
      refer = (rest.references r first.target first.known, rest.refer);
      keeps = λ i v ne h.
          rest.keeps i v ne (put-Keeps self o1 first.after i v ne (first.objects i v h));
      references = λ q j h. rest.references q j (first.references q j h);
    }
