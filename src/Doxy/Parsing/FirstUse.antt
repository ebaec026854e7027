-- ===== src/Doxy/Parsing/FirstUse.antt =====
-- What the first use of a class or a file object does when its XML file holds a compounddef.
use sdrportal.Prelude.{◌≡◌, refl, sym, subst, ◌∙◌, Option, some, List, ◌⊎◌, inl, inr, All}
use sdrportal.Exc.{ok}
use sdrportal.Compound.{Compounddef}
use sdrportal.Bindings.Conform.Viewed.{SomeText}
use sdrportal.Doxy.Classes.{doxy_class, doxy_file}
use sdrportal.Doxy.State.{ObjId, World, Obj, State, M, ◌>>=◌, ◌>>◌}
use sdrportal.Doxy.Heap.{At, put, At-put, step_ok}
use sdrportal.Doxy.Objects.{memberdefs_of, process_memberdefs}
use sdrportal.Doxy.Objects.Firsts.{firsts}
use sdrportal.Doxy.Objects.Conversion.{IsPrintable, Represent}
use sdrportal.Doxy.Objects.Members.{process_memberdefs-Processes}
use sdrportal.Doxy.Leaves.{
  compound_descriptions, set_descriptions, parse_class, parse_file, parse_below,
}
use sdrportal.Doxy.Parsing.{parse_object, confirm_no_error}
use sdrportal.Doxy.Parsing.Readable.{
  IsReadable, fetched, described_by, read_object, Keeps, put-Keeps, set_descriptions_lem,
  parse_fetches, confirm_parses,
}

-- The method `m` succeeds in the state `s` and fills the object behind `i`, which was `o`, from the
-- compounddef.
record Parses (i : ObjId) (o : Obj) (d : Compounddef) (m : M (Unit {0})) (s : State) : Type 0 where
  members : List (Option ObjId)
  after : State
  runs : m s ≡ (ok tt, after)
  there : At i (read_object d members o) after
  stand : Represent members (firsts (memberdefs_of d.sectiondef)) after
  keeps : Keeps i s after

-- A method that starts with another.
Parses-step :
    {i : ObjId} {o : Obj} {d : Compounddef} (m k : M (Unit {0})) (s s1 : State)
    → m s ≡ k s1
    → Keeps i s s1
    → Parses i o d k s1
    → Parses i o d m s
Parses-step m k s s1 e keeps p = record {
  members = p.members;
  after = p.after;
  runs = e ∙ p.runs;
  there = p.there;
  stand = p.stand;
  keeps = λ j v ne h. p.keeps j v ne (keeps j v ne h);
}

module _ (w : World) (i : ObjId) (o : Obj) (d : Compounddef) (brief : SomeText d.briefdescription)
    (detailed : SomeText d.detaileddescription)
    (fine : All IsPrintable (memberdefs_of d.sectiondef)) where
  -- The descriptions and the members, once the document was retrieved.
  fills :
      (s : State)
      → At i (fetched d o) s
      → Parses i o d (set_descriptions i (compound_descriptions (some d)) >> process_memberdefs i) s
  fills s at =
      let f : Obj = fetched d o in
      let g : Obj = record f {
        described = described_by d.briefdescription d.detaileddescription o.described;
      } in
      let s1 = put i g s in
      let (cs, s', runs, there, stand, keeps) =
        process_memberdefs-Processes i g d s1 (At-put i f g s at) refl fine in
      Parses-step _ (process_memberdefs i) s s1
        (step_ok (set_descriptions i (compound_descriptions (some d))) (λ _. process_memberdefs i) s
          tt s1
          (set_descriptions_lem i f d.briefdescription d.detaileddescription s at brief detailed))
        (put-Keeps i g s)
        (record {
          members = cs;
          after = s';
          runs = runs;
          there = there;
          stand = stand;
          keeps = keeps;
        })

  module _ (s : State) (b : IsReadable w i o d s) where
    parse_class_fills : Parses i o d (parse_class w i) s
    unfolding parse_class ◌>>=◌
    parse_class_fills =
        let (s', runs, at, keeps) = parse_fetches w i o d s b _ in
        Parses-step _ (set_descriptions i (compound_descriptions (some d)) >> process_memberdefs i)
          s s' (runs ∙ rw b.fine refl) keeps (fills s' at)

    parse_file_fills : Parses i o d (parse_file w i) s
    unfolding parse_file ◌>>=◌
    parse_file_fills =
        let (s', runs, at, keeps) = parse_fetches w i o d s b _ in
        Parses-step _ (set_descriptions i (compound_descriptions (some d)) >> process_memberdefs i)
          s s' (runs ∙ rw b.fine refl) keeps (fills s' at)

    parse_object_fills :
        (o.cls ≡ doxy_class) ⊎ (o.cls ≡ doxy_file) → Parses i o d (parse_object w o.cls i) s
    unfolding parse_below
    parse_object_fills (inl e) =
        subst (λ c. Parses i o d (parse_object w c i) s) (sym e) parse_class_fills
    parse_object_fills (inr e) =
        subst (λ c. Parses i o d (parse_object w c i) s) (sym e) parse_file_fills

-- The first use of a class or a file object that is not parsed yet succeeds if its XML file holds a
-- compounddef whose brief and detailed description, where it has them, have a text, and each of whose
-- memberdefs has a class or can be reported in ASCII to have none. The object is
-- then parsed; its descriptions are those texts, stripped; its members are exactly one for each name
-- among the memberdefs, in the order of the first memberdef of that name; no other object has
-- changed; and the next use of it succeeds and changes nothing.
pub confirm_no_error-IsReadable :
    (w : World) (i : ObjId) (o : Obj) (d : Compounddef) (s : State)
    → IsReadable w i o d s
    → (o.cls ≡ doxy_class) ⊎ (o.cls ≡ doxy_file)
    → SomeText d.briefdescription
    → SomeText d.detaileddescription
    → All IsPrintable (memberdefs_of d.sectiondef)
    → (cs : List (Option ObjId)) × (s' : State) × (confirm_no_error w i s ≡ (ok tt, s'))
      × At i (read_object d cs o) s'
      × Represent cs (firsts (memberdefs_of d.sectiondef)) s'
      × Keeps i s s'
      × (confirm_no_error w i s' ≡ (ok tt, s'))
confirm_no_error-IsReadable w i o d s b c brief detailed fine =
    let p = parse_object_fills w i o d brief detailed fine s b c in
    let (first, again) =
      confirm_parses w i o (read_object d p.members o) s p.after b.at b.unparsed p.runs p.there refl
        b.fine in
    (p.members, p.after, first, p.there, p.stand, p.keeps, again)
