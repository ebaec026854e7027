-- ===== src/Doxy/Objects/Members.antt =====
-- The members that `process_memberdefs` gives to an object.
use sdrportal.Prelude.{
  Text, Option, none, some, List, [], ◌∷◌, ◌++◌, true, false, ◌≡◌, ◌≢◌, refl, ap, ◌∙◌,
  if◌then◌else◌, Bool-cases, inl, inr, append_assoc, append-nil, subst, ◌⊎◌, All,
}
use sdrportal.Exc.{ok, err, unicode_error}
use sdrportal.Compound.{Memberdef, Compounddef}
use sdrportal.Doxy.State.{ObjId, memberdef, Obj, State, ◌>>◌, read}
use sdrportal.Doxy.Heap.{
  get_obj?-set_obj_other, At, put, At-put, step_ok, step_err, modify-At, read-At,
}
use sdrportal.Doxy.Objects.{
  convert_mem, contains_name, memberdefs_of, memberdefs_of_document, append_member, memberdefs_loop,
  process_memberdefs,
}
use sdrportal.Doxy.Objects.Firsts.{firsts, kept, kept_lem}
use sdrportal.Doxy.Objects.Conversion.{
  IsObjectOf, Represent, Keeps, IsPrintable, conversion, SomeUnprintable, IsPrintable-cases,
  SomeUnprintable-not, convert_mem-raises,
}

IsObjectOf-Keeps :
    (self : ObjId) (c : Option ObjId) (m : Memberdef) (s s' : State)
    → c ≢ some self
    → Keeps self s s'
    → IsObjectOf c m s
    → IsObjectOf c m s'
IsObjectOf-Keeps self none m s s' other keeps h = h
IsObjectOf-Keeps self (some i) m s s' other keeps (c, found, at) =
    (c, found, keeps i _ (λ e. other (ap some e)) at)

with_members : List (Option ObjId) → Obj → Obj
with_members cs o = record o { members = o.members ++ cs }

-- What the loop does to the object `o` behind `self` in the state `s`.
abbrev LoopGives : ObjId → List Text → List Memberdef → Obj → State → Type 0
LoopGives self seen ms o s =
    (cs : List (Option ObjId)) × (s' : State) × (memberdefs_loop self seen ms s ≡ (ok tt, s'))
    × At self (with_members cs o) s'
    × Represent cs (kept seen ms) s'
    × Keeps self s s'

with_members-with_members :
    (c : Option ObjId) (cs : List (Option ObjId)) (o : Obj)
    → with_members cs (with_members (c ∷ []) o) ≡ with_members (c ∷ cs) o
unfolding with_members
with_members-with_members c cs o = rw append_assoc

module _ (self : ObjId) where
  module _ (seen : List Text) (m : Memberdef) (ms : List Memberdef) (s s' : State)
      (c : Option ObjId) (runs : convert_mem (memberdef m) s ≡ (ok c, s')) where
    loop_seen :
        contains_name m.name seen ≡ true
        → memberdefs_loop self seen (m ∷ ms) s ≡ memberdefs_loop self seen ms s'
    unfolding memberdefs_loop
    loop_seen e =
        step_ok (convert_mem (memberdef m))
          (λ x.
            if contains_name m.name seen
            then memberdefs_loop self seen ms
            else (append_member self x >> memberdefs_loop self (m.name ∷ seen) ms))
          s c s' runs
        ∙ rw e

    loop_new :
        (o : Obj)
        → contains_name m.name seen ≡ false
        → At self o s'
        → memberdefs_loop self seen (m ∷ ms) s
          ≡ memberdefs_loop self (m.name ∷ seen) ms (put self (with_members (c ∷ []) o) s')
    unfolding memberdefs_loop with_members
    loop_new o e at =
        step_ok (convert_mem (memberdef m))
          (λ x.
            if contains_name m.name seen
            then memberdefs_loop self seen ms
            else (append_member self x >> memberdefs_loop self (m.name ∷ seen) ms))
          s c s' runs
        ∙ rw e (
            step_ok (append_member self c) (λ _. memberdefs_loop self (m.name ∷ seen) ms) s' tt
              (put self (with_members (c ∷ []) o) s')
              (modify-At self (with_members (c ∷ [])) o s' at))

  loop_gives :
      (seen : List Text) (ms : List Memberdef) (o : Obj) (s : State)
      → At self o s
      → All IsPrintable ms
      → LoopGives self seen ms o s
  unfolding kept
  loop_gives seen [] o s at fine = (
    [],
    s,
    unfold memberdefs_loop in refl,
    unfold with_members in rw append-nil at,
    tt,
    λ i v ne h. h,
  )
  loop_gives seen (m ∷ ms) o s at (fine, all) =
      let first = conversion m s fine in
      let at1 = first.keeps self o at in
      elim (Bool-cases (contains_name m.name seen)) [
        | inl e ↦
            let (cs, s', runs, there, stand, keeps) = loop_gives seen ms o first.after at1 all in
            (
              cs,
              s',
              loop_seen seen m ms s first.after first.converted first.runs e ∙ runs,
              there,
              rw e stand,
              λ i v ne h. keeps i v ne (first.keeps i v h),
            )
        | inr e ↦
            let o1 = with_members (first.converted ∷ []) o in
            let s1 = put self o1 first.after in
            let (cs, s', runs, there, stand, keeps) =
              loop_gives (m.name ∷ seen) ms o1 s1 (At-put self o o1 first.after at1) all in
            let later : Keeps self first.after s' =
              λ i v ne h. keeps i v ne (get_obj?-set_obj_other first.after.heap i self o1 ne ∙ h) in
            (
              first.converted ∷ cs,
              s',
              loop_new seen m ms s first.after first.converted first.runs o e at1 ∙ runs,
              subst (λ (v : Obj). At self v s') (with_members-with_members first.converted cs o)
                  there,
              rw e (
                IsObjectOf-Keeps self first.converted m first.after s'
                    (λ h. let nothing = first.fresh self h in cc) later first.stands,
                stand,
              ),
              λ i v ne h. later i v ne (first.keeps i v h),
            )
      ]

  -- A message that cannot be printed ends the loop.
  loop_raises :
      (seen : List Text) (ms : List Memberdef) (o : Obj) (s : State)
      → At self o s
      → SomeUnprintable ms
      → (s' : State) × (memberdefs_loop self seen ms s ≡ (err unicode_error, s'))
  loop_raises seen [] o s at bad = absurd bad
  loop_raises seen (m ∷ ms) o s at (inl bad) = (
    s,
    unfold memberdefs_loop in
        step_err (convert_mem (memberdef m)) _ s unicode_error s (convert_mem-raises m s bad),
  )
  loop_raises seen (m ∷ ms) o s at (inr (fine, bad)) =
      let first = conversion m s fine in
      let at1 = first.keeps self o at in
      elim (Bool-cases (contains_name m.name seen)) [
        | inl e ↦
            let (s', runs) = loop_raises seen ms o first.after at1 bad in
            (s', loop_seen seen m ms s first.after first.converted first.runs e ∙ runs)
        | inr e ↦
            let o1 = with_members (first.converted ∷ []) o in
            let s1 = put self o1 first.after in
            let (s', runs) =
              loop_raises (m.name ∷ seen) ms o1 s1 (At-put self o o1 first.after at1) bad in
            (s', loop_new seen m ms s first.after first.converted first.runs o e at1 ∙ runs)
      ]

-- What a successful `process_memberdefs` does.
abbrev pub Processes : ObjId → Obj → Compounddef → State → Type 0
Processes self o c s =
    (cs : List (Option ObjId)) × (s' : State) × (process_memberdefs self s ≡ (ok tt, s'))
    × At self (record o { members = o.members ++ cs }) s'
    × Represent cs (firsts (memberdefs_of c.sectiondef)) s'
    × ((i : ObjId) (v : Obj) → i ≢ self → At i v s → At i v s')

module _ (self : ObjId) (o : Obj) (c : Compounddef) (s : State) (at : At self o s)
    (retrieved : o.retrieved ≡ some (some (some c))) where
  process_steps : process_memberdefs self s ≡ memberdefs_loop self [] (memberdefs_of c.sectiondef) s
  unfolding process_memberdefs
  process_steps =
      step_ok (read self) (λ x. memberdefs_of_document self x.retrieved) s o s (read-At self o s at)
      ∙ rw retrieved refl

  pub process_memberdefs-Processes :
      All IsPrintable (memberdefs_of c.sectiondef) → Processes self o c s
  unfolding with_members
  process_memberdefs-Processes fine =
      let ms = memberdefs_of c.sectiondef in
      let (cs, s', runs, there, stand, keeps) = loop_gives self [] ms o s at fine in
      (
        cs,
        s',
        process_steps ∙ runs,
        there,
        subst (λ l. Represent cs l s') (kept_lem ms) stand,
        keeps,
      )

-- If the document of an object was retrieved, and for each memberdef of all sections a class is found or
-- the message that there is none is ASCII, `process_memberdefs` succeeds, and appends to the object's
-- members exactly one member for each name among the memberdefs, in the order of the first memberdef of
-- that name: `None` if no class was found for that memberdef, and otherwise a new object of its class
-- that was made from it. No other object is changed. If a message is not ASCII, it raises
-- UnicodeEncodeError.
pub process_memberdefs-firsts :
    (self : ObjId) (o : Obj) (c : Compounddef) (s : State)
    → At self o s
    → o.retrieved ≡ some (some (some c))
    → (All IsPrintable (memberdefs_of c.sectiondef)
        × (cs : List (Option ObjId)) × (s' : State) × (process_memberdefs self s ≡ (ok tt, s'))
        × At self (record o { members = o.members ++ cs }) s'
        × Represent cs (firsts (memberdefs_of c.sectiondef)) s'
        × ((i : ObjId) (v : Obj) → i ≢ self → At i v s → At i v s'))
      ⊎ ((¬ All IsPrintable (memberdefs_of c.sectiondef))
          × (s' : State) × (process_memberdefs self s ≡ (err unicode_error, s')))
process_memberdefs-firsts self o c s at retrieved =
    let ms = memberdefs_of c.sectiondef in
    elim (IsPrintable-cases ms) [
      | inl fine ↦
          let (cs, s', runs, there, stand, keeps) =
            process_memberdefs-Processes self o c s at retrieved fine in
          inl (fine, cs, s', runs, there, stand, keeps)
      | inr bad ↦
          let (s', runs) = loop_raises self [] ms o s at bad in
          inr (SomeUnprintable-not ms bad, s', process_steps self o c s at retrieved ∙ runs)
    ]
