-- ===== src/Doxy/Parsing/Readable.antt =====
-- What the first use of a class or a file object does when its XML file holds a compounddef.
use sdrportal.Prelude.{
  ◌≡◌, ◌≢◌, refl, ap, ◌∙◌, Text, codes, Option, none, some, List, ◌++◌, true, false, inl, inr,
}
use sdrportal.Exc.{ok}
use sdrportal.Str.{strip}
use sdrportal.Describe.{Bit, description}
use sdrportal.Describe.Laws.{flat, description-cases}
use sdrportal.Compound.{Compounddef}
use sdrportal.Bindings.Conform.Viewed.{SomeText}
use sdrportal.Doxy.State.{ObjId, World, document, Described, Obj, State, M, ◌>>=◌, ◌>>◌, lift, read}
use sdrportal.Doxy.Heap.{At, put, At-put, get_obj?-set_obj_other, step_ok, read-At, modify-At}
use sdrportal.Doxy.Leaves.{
  mark_parsed, describe, retrieve, retrieve_named, retrieve_data, take_document, set_descriptions,
  unless_parsed, no_error,
}
use sdrportal.Doxy.Parsing.{parse_object, check_parsed, confirm_no_error}

-- The object is not parsed yet, and its XML file holds the compounddef.
pub record IsReadable (w : World) (i : ObjId) (o : Obj) (d : Compounddef) (s : State) : Type 0 where
  pub at : At i o s
  pub unparsed : o.parsed ≡ false
  pub fine : o.error ≡ false
  pub refid : Text
  pub named : o.refid ≡ some refid
  pub holds : w.compound_file (w.join_path s.xml_path (refid ++ codes ".xml")) ≡ document (some d)

-- A description as it is stored: its text, stripped, if there is one.
abbrev pub plain_of : Option Bit → Option Text
plain_of none = none
plain_of (some b) = some (strip (flat b))

pub description-plain_of : (b : Option Bit) → SomeText b → description b ≡ ok (plain_of b)
unfolding description
description-plain_of none h = refl
description-plain_of (some b) h = elim (description-cases b) [
  | inl (text, is) ↦ is
  | inr (without, is) ↦ absurd (without h)
]

-- The object once its document was retrieved.
abbrev pub fetched : Compounddef → Obj → Obj
fetched d o = record o { parsed = true; retrieved = some (some (some d)) }

abbrev pub described_by : Option Bit → Option Bit → Described → Described
described_by brief detailed x = record x {
  brief_description = some (plain_of brief);
  detailed_description = some (plain_of detailed);
}

-- The object once it was parsed, with new members.
abbrev pub read_object : Compounddef → List (Option ObjId) → Obj → Obj
read_object d cs o = record (fetched d o) {
  described = described_by d.briefdescription d.detaileddescription o.described;
  members = o.members ++ cs;
}

-- Objects other than `i` stay as they are.
abbrev pub Keeps : ObjId → State → State → Type 0
Keeps i s s' = (j : ObjId) (v : Obj) → j ≢ i → At j v s → At j v s'

pub put-Keeps : (i : ObjId) (v : Obj) (s : State) → Keeps i s (put i v s)
put-Keeps i v s j u ne h = get_obj?-set_obj_other s.heap j i v ne ∙ h

pub set_descriptions_lem :
    (i : ObjId) (o : Obj) (brief detailed : Option Bit) (s : State)
    → At i o s
    → SomeText brief
    → SomeText detailed
    → set_descriptions i (brief, detailed) s
      ≡ (ok tt, put i (record o { described = described_by brief detailed o.described }) s)
unfolding set_descriptions
set_descriptions_lem i o brief detailed s at h k =
    let store = λ (bd dd : Option Text). describe i (λ (x : Described). record x {
      brief_description = some bd;
      detailed_description = some dd;
    }) in
    step_ok (lift (description brief)) (λ bd. lift (description detailed) >>= λ dd. store bd dd) s
      (plain_of brief) s (rw (description-plain_of brief h) refl)
    ∙ step_ok (lift (description detailed)) (store (plain_of brief)) s (plain_of detailed) s
        (rw (description-plain_of detailed k) refl)
    ∙ modify-At i (λ x. record x { described = described_by brief detailed x.described }) o s at

module _ (w : World) (i : ObjId) (o : Obj) (d : Compounddef) (s : State)
    (b : IsReadable w i o d s) where
  -- The classes that read a file begin alike.
  pub parse_fetches :
      (next : Obj → M (Unit {0}))
      → (s' : State) × ((mark_parsed i >> (retrieve_data w i >> (read i >>= next))) s
          ≡ next (fetched d o) s')
        × At i (fetched d o) s'
        × Keeps i s s'
  unfolding retrieve_data
  parse_fetches next =
      let o1 : Obj = record o { parsed = true } in
      let s1 = put i o1 s in
      let at1 = At-put i o o1 s b.at in
      let s2 = put i (fetched d o) s1 in
      let at2 = At-put i o1 (fetched d o) s1 at1 in
      let file = w.join_path s.xml_path (b.refid ++ codes ".xml") in
      let retrieves : retrieve_data w i s1 ≡ (ok tt, s2) =
        step_ok (read i) (λ x. retrieve_named w i x.refid) s1 o1 s1 (read-At i o1 s1 at1)
        ∙ ap (λ r. retrieve_named w i r s1) b.named
        ∙ ap (λ l. take_document w i file l s1) b.holds
        ∙ modify-At i (retrieve (some (some d))) o1 s1 at1 in
      (
        s2,
        step_ok (mark_parsed i) (λ _. retrieve_data w i >> (read i >>= next)) s tt s1
              (modify-At i (λ x. record x { parsed = true }) o s b.at)
            ∙ step_ok (retrieve_data w i) (λ _. read i >>= next) s1 tt s2 retrieves
            ∙ step_ok (read i) next s2 (fetched d o) s2 (read-At i (fetched d o) s2 at2),
        at2,
        λ j v ne h. put-Keeps i (fetched d o) s1 j v ne (put-Keeps i o1 s j v ne h),
      )

-- An object that is parsed and has no error is not parsed again.
confirm_parsed :
    (w : World) (i : ObjId) (v : Obj) (s : State)
    → At i v s
    → v.parsed ≡ true
    → v.error ≡ false
    → confirm_no_error w i s ≡ (ok tt, s)
unfolding confirm_no_error check_parsed
confirm_parsed w i v s at p e =
    step_ok (check_parsed w i) (λ _. read i >>= λ x. no_error w x.error) s tt s
      (step_ok (read i) (λ x. unless_parsed w x.parsed (parse_object w x.cls i)) s v s
          (read-At i v s at)
        ∙ ap (λ b. unless_parsed w b (parse_object w v.cls i) s) p)
    ∙ step_ok (read i) (λ x. no_error w x.error) s v s (read-At i v s at)
    ∙ ap (λ b. no_error w b s) e

-- If `_parse` succeeds and leaves no error, so does the first use, and a second one does nothing.
pub confirm_parses :
    (w : World) (i : ObjId) (o v : Obj) (s s' : State)
    → At i o s
    → o.parsed ≡ false
    → parse_object w o.cls i s ≡ (ok tt, s')
    → At i v s'
    → v.parsed ≡ true
    → v.error ≡ false
    → (confirm_no_error w i s ≡ (ok tt, s')) × (confirm_no_error w i s' ≡ (ok tt, s'))
unfolding confirm_no_error check_parsed
confirm_parses w i o v s s' at unparsed runs there p e = (
  step_ok (check_parsed w i) (λ _. read i >>= λ x. no_error w x.error) s tt s'
        (step_ok (read i) (λ x. unless_parsed w x.parsed (parse_object w x.cls i)) s o s
            (read-At i o s at)
          ∙ ap (λ b. unless_parsed w b (parse_object w o.cls i) s) unparsed
          ∙ runs)
      ∙ step_ok (read i) (λ x. no_error w x.error) s' v s' (read-At i v s' there)
      ∙ ap (λ b. no_error w b s') e,
  confirm_parsed w i v s' there p e,
)
