-- ===== src/Doxy/Parsing/GroupUse.antt =====
-- What the first use of a group object does when its XML file holds a compounddef.
use sdrportal.Prelude.{◌≡◌, refl, sym, ap, ◌∙◌, Option, some, List, ◌++◌, map, All}
use sdrportal.Exc.{ok}
use sdrportal.Describe.{description}
use sdrportal.Describe.Laws.{IsText}
use sdrportal.Compound.{Compounddef}
use sdrportal.Doxy.Classes.{doxy_group, doxy_class}
use sdrportal.Doxy.State.{ObjId, World, Obj, State, M, ◌>>=◌, ◌>>◌, lift}
use sdrportal.Doxy.Heap.{At, put, At-put, step_ok, modify-At}
use sdrportal.Doxy.Objects.{memberdefs_of, process_memberdefs}
use sdrportal.Doxy.Objects.Firsts.{firsts}
use sdrportal.Doxy.Objects.Conversion.{IsPrintable, Represent}
use sdrportal.Doxy.Objects.Members.{process_memberdefs-Processes}
use sdrportal.Doxy.Objects.References.{process_memberdefs-refs}
use sdrportal.Doxy.Leaves.{describe, inner_loop, parse_group, parse_below}
use sdrportal.Doxy.Parsing.{parse_object, confirm_no_error}
use sdrportal.Doxy.Parsing.Inner.{inner, Refer, Refer-KeepsRefs, KeepsRefs}
use sdrportal.Doxy.Parsing.Readable.{
  IsReadable, plain_of, description-plain_of, fetched, Keeps, put-Keeps, parse_fetches,
  confirm_parses,
}

-- The group with its title.
abbrev pub titled : Compounddef → Obj → Obj
titled d o = record (fetched d o) {
  described = record o.described { title = some (plain_of (some d.title)) };
}

-- The group once it was parsed: the members are the inner groups, the inner classes and then the
-- objects of the memberdefs.
abbrev pub read_group : Compounddef → List ObjId → List ObjId → List (Option ObjId) → Obj → Obj
read_group d gs ks cs o = record (titled d o) {
  members = ((o.members ++ map some gs) ++ map some ks) ++ cs;
}

-- The rest of `_parse`, once the document was retrieved.
abbrev body : World → ObjId → Compounddef → M (Unit {0})
body w i d = do
  title ← lift (description (some d.title))
  describe i (λ x. record x { title = some title })
  inner_loop w doxy_group i d.innergroup
  inner_loop w doxy_class i d.innerclass
  process_memberdefs i

module _ (w : World) (i : ObjId) (o : Obj) (d : Compounddef) (text : IsText d.title)
    (fine : All IsPrintable (memberdefs_of d.sectiondef)) where
  -- What `m` does to the group in the state `s`.
  record ParsesGroup (m : M (Unit {0})) (s : State) : Type 0 where
    groups : List ObjId
    classes : List ObjId
    members : List (Option ObjId)
    after : State
    runs : m s ≡ (ok tt, after)
    there : At i (read_group d groups classes members o) after
    refer_groups : Refer groups d.innergroup after
    refer_classes : Refer classes d.innerclass after
    stand : Represent members (firsts (memberdefs_of d.sectiondef)) after
    keeps : Keeps i s after

  titles :
      (s : State)
      → At i (fetched d o) s
      → body w i d s
        ≡ (inner_loop w doxy_group i d.innergroup
              >> (inner_loop w doxy_class i d.innerclass >> process_memberdefs i))
            (put i (titled d o) s)
  titles s at =
      step_ok (lift (description (some d.title))) _ s (plain_of (some d.title)) s
        (ap (λ r. (r, s)) (description-plain_of (some d.title) text))
      ∙ step_ok (describe i (λ x. record x { title = some (plain_of (some d.title)) })) _ s tt
          (put i (titled d o) s)
          (modify-At i
            (λ x. record x {
              described = record x.described { title = some (plain_of (some d.title)) };
            })
            (fetched d o) s at)

  body_fills : (s : State) → At i (fetched d o) s → ParsesGroup (body w i d) s
  body_fills s at =
      let s1 = put i (titled d o) s in
      let gs = inner w doxy_group i d.innergroup (titled d o) s1 (At-put i _ (titled d o) s at) in
      let ks = inner w doxy_class i d.innerclass _ gs.after gs.there in
      let (cs, s', runs, there, stand, keeps) =
        process_memberdefs-Processes i _ d ks.after ks.there refl fine in
      let same : s'.refs ≡ ks.after.refs =
        ap (λ x. x.1.refs) (sym runs) ∙ process_memberdefs-refs i ks.after in
      let refs : KeepsRefs ks.after s' = λ r j h. rw same h in
      record {
        groups = gs.targets;
        classes = ks.targets;
        members = cs;
        after = s';
        runs =
            titles s at
            ∙ step_ok (inner_loop w doxy_group i d.innergroup) _ s1 tt gs.after gs.runs
            ∙ step_ok (inner_loop w doxy_class i d.innerclass) (λ _. process_memberdefs i) gs.after
                tt ks.after ks.runs
            ∙ runs;
        there = there;
        refer_groups =
            Refer-KeepsRefs gs.targets d.innergroup gs.after s'
              (λ r j h. refs r j (ks.references r j h)) gs.refer;
        refer_classes = Refer-KeepsRefs ks.targets d.innerclass ks.after s' refs ks.refer;
        stand = stand;
        keeps = λ j v ne h.
            keeps j v ne (ks.keeps j v ne (gs.keeps j v ne (put-Keeps i (titled d o) s j v ne h)));
      }

  parse_group_fills : (s : State) → IsReadable w i o d s → ParsesGroup (parse_group w i) s
  unfolding parse_group ◌>>=◌
  parse_group_fills s b =
      let (s', runs, at, keeps) = parse_fetches w i o d s b _ in
      let p = body_fills s' at in
      record {
        groups = p.groups;
        classes = p.classes;
        members = p.members;
        after = p.after;
        runs = runs ∙ rw b.fine p.runs;
        there = p.there;
        refer_groups = p.refer_groups;
        refer_classes = p.refer_classes;
        stand = p.stand;
        keeps = λ j v ne h. p.keeps j v ne (keeps j v ne h);
      }

-- The first use of a group object that is not parsed yet succeeds if its XML file holds a compounddef
-- whose title has a text and each of whose memberdefs has a class or can be reported in ASCII to have
-- none. The group is then parsed; its title is that text, stripped; its members
-- are the objects that the references of the inner groups and of the inner classes stand for, in
-- that order, and one for each name among the memberdefs; no other object has changed; and the next
-- use of it succeeds and changes nothing.
pub confirm_no_error-group :
    (w : World) (i : ObjId) (o : Obj) (d : Compounddef) (s : State)
    → IsReadable w i o d s
    → o.cls ≡ doxy_group
    → IsText d.title
    → All IsPrintable (memberdefs_of d.sectiondef)
    → (gs : List ObjId) × (ks : List ObjId) × (cs : List (Option ObjId)) × (s' : State)
      × (confirm_no_error w i s ≡ (ok tt, s'))
      × At i (read_group d gs ks cs o) s'
      × Refer gs d.innergroup s'
      × Refer ks d.innerclass s'
      × Represent cs (firsts (memberdefs_of d.sectiondef)) s'
      × Keeps i s s'
      × (confirm_no_error w i s' ≡ (ok tt, s'))
unfolding parse_below
confirm_no_error-group w i o d s b c text fine =
    let p = parse_group_fills w i o d text fine s b in
    let runs : parse_object w o.cls i s ≡ (ok tt, p.after) =
      ap (λ c. parse_object w c i s) c ∙ p.runs in
    let (first, again) =
      confirm_parses w i o (read_group d p.groups p.classes p.members o) s p.after b.at b.unparsed
        runs p.there refl b.fine in
    (
      p.groups, p.classes, p.members, p.after, first, p.there, p.refer_groups, p.refer_classes,
      p.stand, p.keeps, again,
    )
