-- ===== src/Bindings/Conform/Viewed.antt =====
-- About what doxyxml reads of the objects that the bindings build.
use sdrportal.Prelude.{
  Text, codes, Option, none, some, List, [], ◌∷◌, text_eq, ◌≡◌, refl, sym, subst, All,
}
use sdrportal.Exc.{ok}
use sdrportal.Dom.{Attrs, Nodes}
use sdrportal.Describe.{Bit}
use sdrportal.Describe.Laws.{IsText}
use sdrportal.Compound.{Param, Memberdef, Sectiondef, Compounddef}
use sdrportal.Bindings.Classes.{Class}
use sdrportal.Bindings.Tables.{schema}
use sdrportal.Bindings.Value.{
  Value, nothing, string, integer, array, instance_of, container, Values, nil, cons, Fields,
}
use sdrportal.Bindings.Bits.{bit_of}
use sdrportal.Bindings.View.{
  ◌>>=◌, as_text, as_maybe_text, as_description, all_of, as_list, as_object, at, param_of,
  memberdef_of, sectiondef_of, refids_of, compounddef_of,
}
use sdrportal.Bindings.Build.{build}
use sdrportal.Bindings.Conform.{
  FieldKind, Kinds, maybe_text, a_text, maybe, many, titled, declared, Fits, AllItems, Matches,
}
use sdrportal.Bindings.Conform.Access.{kind_at, get_field-Matches}
use sdrportal.Bindings.Conform.Cases.{Item-many}
use sdrportal.Bindings.Conform.Outcome.{Outcome-ok}
use sdrportal.Bindings.Conform.Sound.{build-Conforms}
use sdrportal.Bindings.Conform.Described.{instance-IsText}
use sdrportal.Bindings.Conform.Markup.{IsMarkup}

-- The view is there, and `P` holds of it.
abbrev Reads {ℓ κ} : {A : Type ℓ} (P : A → Type κ) → Option A → Type (ℓ ⊔ κ)
Reads {A = A} P o = (a : A) × (o ≡ some a) × P a

Reads-bind {ℓ κ ℓ' κ'} :
    {A : Type ℓ} {B : Type ℓ'} {P : A → Type κ} {Q : B → Type κ'} {o : Option A} {f : A → Option B}
    → Reads P o
    → ((a : A) → P a → Reads Q (f a))
    → Reads Q (o >>= f)
Reads-bind {Q = Q} {f = f} (a, e, h) go = subst (λ x. Reads Q (x >>= f)) (sym e) (go a h)

at-Reads {ℓ κ} :
    {A : Type ℓ} {P : A → Type κ} (k : Text) (f : Value → Option A) (μ : FieldKind) (fs : Fields)
    (ds : Kinds)
    → Matches fs ds
    → kind_at k ds ≡ some μ
    → ((v : Value) → Fits v μ → Reads P (f v))
    → Reads P (at k f fs)
at-Reads {P = P} k f μ fs ds m e go =
    let (v, got, fit) = get_field-Matches k μ fs ds m e in
    subst (λ x. Reads P (x >>= f)) (sym got) (go v fit)

-- The description, if there is one, has a text.
abbrev pub SomeText : Option Bit → Type 0
SomeText none = Unit
SomeText (some b) = IsText b

as_text-Reads : (v : Value) → Fits v a_text → Reads (λ t. Unit {0}) (as_text v)
unfolding Fits
as_text-Reads nothing fit = absurd fit
as_text-Reads (string t) fit = (t, refl, tt)
as_text-Reads (integer m n) fit = absurd fit
as_text-Reads (array vs) (is, all) = absurd is
as_text-Reads (instance_of d fs) (of, m) = absurd of
as_text-Reads (container cat n w) fit = absurd fit

as_maybe_text-Reads : (v : Value) → Fits v maybe_text → Reads (λ t. Unit {0}) (as_maybe_text v)
unfolding Fits
as_maybe_text-Reads nothing fit = (none, refl, tt)
as_maybe_text-Reads (string t) fit = (some t, refl, tt)
as_maybe_text-Reads (integer m n) fit = absurd fit
as_maybe_text-Reads (array vs) (is, all) = absurd is
as_maybe_text-Reads (instance_of d fs) (of, m) = absurd of
as_maybe_text-Reads (container cat n w) fit = absurd fit

as_description-Reads :
    (v : Value) → Fits v (maybe Class.description_type) → Reads SomeText (as_description v)
unfolding Fits schema
as_description-Reads nothing fit = (none, refl, tt)
as_description-Reads (string t) fit = absurd fit
as_description-Reads (integer m n) fit = absurd fit
as_description-Reads (array vs) (is, all) = absurd is
as_description-Reads (instance_of d fs) (of, m) = (
  some (bit_of (instance_of d fs)),
  refl,
  instance-IsText d fs m (subst (λ x. IsMarkup (schema x).shape) of tt),
)
as_description-Reads (container cat n w) fit = absurd fit

title-Reads : (v : Value) → Fits v (titled Class.doc_title_type) → Reads IsText (some (bit_of v))
unfolding Fits schema IsText bit_of
title-Reads nothing fit = absurd fit
title-Reads (string t) fit = (_, refl, tt)
title-Reads (integer m n) fit = absurd fit
title-Reads (array vs) (is, all) = absurd is
title-Reads (instance_of d fs) (of, m) =
    (_, refl, instance-IsText d fs m (subst (λ x. IsMarkup (schema x).shape) of tt))
title-Reads (container cat n w) fit = absurd fit

module _ {ℓ κ} {A : Type ℓ} {P : A → Type κ} (c : Class) (f : Fields → Option A)
    (go : (fs : Fields) → Matches fs (declared (schema c)) → Reads P (f fs)) where
  all_of-Reads : (vs : Values) → AllItems vs (many c) → Reads (All P) (all_of (as_object f) vs)
  unfolding all_of AllItems
  all_of-Reads nil all = ([], refl, tt)
  all_of-Reads (cons v vs) (item, all) =
      let (fs, e, m) = Item-many c v item in
      let (a, here, h) = go fs m in
      let (rest, there, hs) = all_of-Reads vs all in
      (a ∷ rest, rw e (rw here (rw there refl)), (h, hs))

  as_list-Reads : (v : Value) → Fits v (many c) → Reads (All P) (as_list (as_object f) v)
  unfolding Fits
  as_list-Reads nothing fit = absurd fit
  as_list-Reads (string t) fit = absurd fit
  as_list-Reads (integer m n) fit = absurd fit
  as_list-Reads (array vs) (is, all) = all_of-Reads vs all
  as_list-Reads (instance_of d fs) (of, m) = absurd of
  as_list-Reads (container cat n w) fit = absurd fit

abbrev pub ParamText : Param → Type 0
ParamText p = SomeText p.briefdescription

param_of-Reads :
    (fs : Fields) → Matches fs (declared (schema Class.param_type)) → Reads ParamText (param_of fs)
unfolding param_of declared schema text_eq
param_of-Reads fs m =
    Reads-bind (at-Reads (codes "declname") as_text a_text fs _ m refl as_text-Reads) (λ declname u.
      Reads-bind
        (at-Reads (codes "briefdescription") as_description (maybe Class.description_type) fs _ m
          refl as_description-Reads)
        (λ brief h. (_, refl, h)))

abbrev pub MemberText : Memberdef → Type 0
MemberText d = SomeText d.briefdescription × SomeText d.detaileddescription × All ParamText d.param

memberdef_of-Reads :
    (fs : Fields)
    → Matches fs (declared (schema Class.memberdef_type))
    → Reads MemberText (memberdef_of fs)
unfolding memberdef_of declared schema text_eq
memberdef_of-Reads fs m =
    Reads-bind (at-Reads (codes "kind") as_maybe_text maybe_text fs _ m refl as_maybe_text-Reads)
      (λ kind u1.
        Reads-bind (at-Reads (codes "id") as_maybe_text maybe_text fs _ m refl as_maybe_text-Reads)
          (λ id u2.
            Reads-bind (at-Reads (codes "name") as_text a_text fs _ m refl as_text-Reads)
              (λ name u3.
                Reads-bind
                  (at-Reads (codes "param") (as_list (as_object param_of)) (many Class.param_type)
                    fs _ m refl (as_list-Reads Class.param_type param_of param_of-Reads))
                  (λ params hs.
                    Reads-bind
                      (at-Reads (codes "briefdescription") as_description
                        (maybe Class.description_type) fs _ m refl as_description-Reads)
                      (λ brief h1.
                        Reads-bind
                          (at-Reads (codes "detaileddescription") as_description
                            (maybe Class.description_type) fs _ m refl as_description-Reads)
                          (λ detailed h2. (_, refl, (h1, h2, hs))))))))

abbrev pub SectionText : Sectiondef → Type 0
SectionText s = All MemberText s.memberdef

sectiondef_of-Reads :
    (fs : Fields)
    → Matches fs (declared (schema Class.sectiondef_type))
    → Reads SectionText (sectiondef_of fs)
unfolding sectiondef_of declared schema text_eq
sectiondef_of-Reads fs m =
    Reads-bind (at-Reads (codes "kind") as_maybe_text maybe_text fs _ m refl as_maybe_text-Reads)
      (λ kind u1.
        Reads-bind
          (at-Reads (codes "memberdef") (as_list (as_object memberdef_of))
            (many Class.memberdef_type) fs _ m refl
            (as_list-Reads Class.memberdef_type memberdef_of memberdef_of-Reads))
          (λ members hs. (_, refl, hs)))

-- Every description in the compounddef, of itself, a member or a parameter, and its title have a text.
abbrev pub AllTexts : Compounddef → Type 0
AllTexts d =
    IsText d.title
    × SomeText d.briefdescription
    × SomeText d.detaileddescription
    × All SectionText d.sectiondef

compounddef_of-Reads :
    (fs : Fields) (classes groups : List Text)
    → Matches fs (declared (schema Class.compounddef_type))
    → refids_of (codes "innerclass") fs ≡ some classes
    → refids_of (codes "innergroup") fs ≡ some groups
    → Reads AllTexts (compounddef_of fs)
unfolding compounddef_of declared schema text_eq
compounddef_of-Reads fs classes groups m in_classes in_groups =
    Reads-bind (at-Reads (codes "id") as_maybe_text maybe_text fs _ m refl as_maybe_text-Reads)
      (λ id u1.
        Reads-bind (at-Reads (codes "compoundname") as_text a_text fs _ m refl as_text-Reads)
          (λ name u2.
            Reads-bind
              (at-Reads (codes "title") (λ v. some (bit_of v)) (titled Class.doc_title_type) fs _ m
                refl title-Reads)
              (λ title h.
                Reads-bind {P = λ x. Unit {0}} (classes, in_classes, tt)
                  (λ cs u3.
                    Reads-bind {P = λ x. Unit {0}} (groups, in_groups, tt)
                      (λ gs u4.
                        Reads-bind
                          (at-Reads (codes "sectiondef") (as_list (as_object sectiondef_of))
                            (many Class.sectiondef_type) fs _ m refl
                            (as_list-Reads Class.sectiondef_type sectiondef_of sectiondef_of-Reads))
                          (λ sections hs.
                            Reads-bind
                              (at-Reads (codes "briefdescription") as_description
                                (maybe Class.description_type) fs _ m refl as_description-Reads)
                              (λ brief h1.
                                Reads-bind
                                  (at-Reads (codes "detaileddescription") as_description
                                    (maybe Class.description_type) fs _ m refl as_description-Reads)
                                  (λ detailed h2. (_, refl, (h, h1, h2, hs))))))))))

-- If `build` of a compounddef gives an object, and every reference of it to an inner class or group has
-- its `refid`, then doxyxml can read it as a compounddef, and its title and every description in it,
-- of the compound, a member or a parameter, have a text.
pub compounddef_of-build :
    (ats : Attrs) (ns : Nodes) (fs : Fields) (classes groups : List Text)
    → build Class.compounddef_type ats ns ≡ ok (instance_of Class.compounddef_type fs)
    → refids_of (codes "innerclass") fs ≡ some classes
    → refids_of (codes "innergroup") fs ≡ some groups
    → (d : Compounddef) × (compounddef_of fs ≡ some d) × AllTexts d
unfolding Fits
compounddef_of-build ats ns fs classes groups built in_classes in_groups =
    compounddef_of-Reads fs classes groups
      (Outcome-ok (build-Conforms Class.compounddef_type ats ns) built).0.1 in_classes in_groups
