-- ===== src/Doxy/Parsing/FromXml.antt =====
-- compound.py, text.py and doxyindex.py together: objects over what the bindings build.
use sdrportal.Prelude.{
  ◌≡◌, ◌≢◌, refl, sym, subst, ap, ◌∙◌, Text, codes, Option, none, some, List, [], ◌∷◌, true, inl,
  inr, ◌⊎◌, All, All-append, text_eq, text_eq_iff, Bool-cases,
}
use sdrportal.Exc.{ok}
use sdrportal.Dom.{Attrs, Nodes}
use sdrportal.Compound.{Memberdef, Sectiondef, Compounddef}
use sdrportal.Bindings.Classes.{Class}
use sdrportal.Bindings.Value.{Fields, instance_of}
use sdrportal.Bindings.View.{◌>>=◌, at, as_text, as_maybe_text, compounddef_of, refids_of}
use sdrportal.Bindings.Bits.{bit_of}
use sdrportal.Bindings.Build.{build}
use sdrportal.Bindings.Conform.Viewed.{AllTexts, MemberText, SectionText, compounddef_of-build}
use sdrportal.Doxy.Classes.{
  Cls, doxy_function, doxy_param, doxy_class, doxy_file, doxy_group, doxy_index, get_cls, can_parse,
  same_kind,
}
use sdrportal.Doxy.Classes.Choice.{get_cls_iff}
use sdrportal.Doxy.State.{ObjId, World, Obj, State, memberdef}
use sdrportal.Doxy.Heap.{At, put, At-put, modify-At}
use sdrportal.Doxy.Objects.{memberdefs_of, new_object, class_of}
use sdrportal.Doxy.Objects.Firsts.{others, firsts}
use sdrportal.Doxy.Objects.Conversion.{IsPrintable, Represent}
use sdrportal.Doxy.Leaves.{parse_below}
use sdrportal.Doxy.Parsing.{confirm_no_error}
use sdrportal.Doxy.Parsing.Readable.{IsReadable, read_object, confirm_parses}
use sdrportal.Doxy.Parsing.FirstUse.{confirm_no_error-IsReadable}
use sdrportal.Doxy.Parsing.MemberUse.{confirm_no_error-function}

bind-some {ℓ κ} :
    {A : Type ℓ} {B : Type κ} (o : Option A) (f : A → Option B) (b : B)
    → (o >>= f) ≡ some b
    → (a : A) × (o ≡ some a) × (f a ≡ some b)
bind-some none f b h = cc
bind-some (some a) f b h = (a, refl, h)

-- The texts of a compounddef that the bindings built and that has a view.
AllTexts-build :
    (ats : Attrs) (ns : Nodes) (fs : Fields) (d : Compounddef)
    → build Class.compounddef_type ats ns ≡ ok (instance_of Class.compounddef_type fs)
    → compounddef_of fs ≡ some d
    → AllTexts d
unfolding compounddef_of
AllTexts-build ats ns fs d built seen =
    let (id, e1, h1) = bind-some (at (codes "id") as_maybe_text fs) _ d seen in
    let (name, e2, h2) = bind-some (at (codes "compoundname") as_text fs) _ d h1 in
    let (title, e3, h3) = bind-some (at (codes "title") (λ v. some (bit_of v)) fs) _ d h2 in
    let (classes, e4, h4) = bind-some (refids_of (codes "innerclass") fs) _ d h3 in
    let (groups, e5, h5) = bind-some (refids_of (codes "innergroup") fs) _ d h4 in
    let (d', seen', texts) = compounddef_of-build ats ns fs classes groups built e4 e5 in
    let both : some d' ≡ some d = sym seen' ∙ seen in subst AllTexts (some_injective both) texts
  where
    some_injective : {a b : Compounddef} → some a ≡ some b → a ≡ b
    some_injective e = cc

-- The kind of a member is none of the kinds of a compound that has a file.
abbrev pub IsMember : Memberdef → Type 0
IsMember m =
    (m.kind ≢ some (codes "class"))
    × (m.kind ≢ some (codes "file"))
    × (m.kind ≢ some (codes "group"))

-- The first use of the object, if it is one, succeeds.
abbrev pub IsUsable : World → State → Option ObjId → Type 0
IsUsable w s none = Unit
IsUsable w s (some j) = (s' : State) × (confirm_no_error w j s ≡ (ok tt, s'))

module _ {ℓ} (P : Memberdef → Type ℓ) where
  All-others : (n : Text) (ms : List Memberdef) → All P ms → All P (others n ms)
  All-others n [] h = tt
  All-others n (m ∷ ms) (h, t) = elim (Bool-cases (text_eq n m.name)) [
    | inl e ↦ rw e (All-others n ms t)
    | inr e ↦ rw e (h, All-others n ms t)
  ]

  All-firsts : (ms : List Memberdef) → All P ms → All P (firsts ms)
  All-firsts [] h = tt
  All-firsts (m ∷ ms) (h, t) = (h, All-others m.name (firsts ms) (All-firsts ms t))

memberdefs-MemberText :
    (ss : List Sectiondef) → All SectionText ss → All MemberText (memberdefs_of ss)
memberdefs-MemberText [] h = tt
memberdefs-MemberText (s ∷ ss) (h, t) =
    All-append MemberText s.memberdef (memberdefs_of ss) h (memberdefs-MemberText ss t)

All-both {ℓ κ} :
    (P : Memberdef → Type ℓ) (Q : Memberdef → Type κ) (ms : List Memberdef)
    → All P ms
    → All Q ms
    → All (λ m. P m × Q m) ms
All-both P Q [] h k = tt
All-both P Q (m ∷ ms) (h, hs) (k, ks) = ((h, k), All-both P Q ms hs ks)

can_parse-class_of :
    (m : Memberdef) (c : Cls)
    → class_of (memberdef m) ≡ ok c
    → (m.kind ≢ none) × (can_parse c m.kind ≡ true)
unfolding class_of
can_parse-class_of m c found = by_kind m.kind found
  where
    by_kind : (k : Option Text) → get_cls k m.name ≡ ok c → (k ≢ none) × (can_parse c k ≡ true)
    by_kind none h = unfold get_cls in cc
    by_kind (some k) h = (λ e. cc, (get_cls_iff k m.name c).0 h)

same_text : (k : Option Text) (t : Text) → same_kind k (some t) ≡ true → k ≡ some t
same_text none t h = cc
same_text (some k) t h = ap some ((text_eq_iff k t).0 h)

-- The object of a member is usable, whichever class can parse the member.
member-IsUsable :
    (w : World) (j : ObjId) (m : Memberdef) (s : State) (c : Cls)
    → At j (new_object c (some (memberdef m))) s
    → (m.kind ≢ none) × (can_parse c m.kind ≡ true)
    → IsMember m
    → MemberText m
    → IsUsable w s (some j)
unfolding can_parse parse_below
member-IsUsable w j m s doxy_function there (kinded, can) is (brief, detailed, params) =
    let (ids, s', runs, filled, objects, keeps, again) =
      confirm_no_error-function w j _ m s there refl refl refl refl brief detailed in
    (s', runs)
member-IsUsable w j m s doxy_class there (kinded, can) is texts =
    absurd (is.0 (same_text m.kind (codes "class") can))
member-IsUsable w j m s doxy_file there (kinded, can) is texts =
    absurd (is.1 (same_text m.kind (codes "file") can))
member-IsUsable w j m s doxy_group there (kinded, can) is texts =
    absurd (is.2 (same_text m.kind (codes "group") can))
member-IsUsable w j m s doxy_param there (kinded, can) is texts =
    absurd (kinded (no_kind m.kind can))
  where
    no_kind : (k : Option Text) → same_kind k none ≡ true → k ≡ none
    no_kind none h = refl
    no_kind (some k) h = cc
member-IsUsable w j m s doxy_index there (kinded, can) is texts = cc
member-IsUsable w j m s _ there (kinded, can) is texts =
    let o : Obj = new_object _ (some (memberdef m)) in
    (
      put j (record o { parsed = true }) s,
      (confirm_parses w j o (record o { parsed = true }) s _ there refl
          (modify-At j (λ x. record x { parsed = true }) o s there) (At-put j o _ s there) refl
          refl).0,
    )

-- The members that stand for memberdefs of the document are usable.
members-IsUsable :
    (w : World) (cs : List (Option ObjId)) (ms : List Memberdef) (s : State)
    → Represent cs ms s
    → All (λ m. IsMember m × MemberText m) ms
    → All (IsUsable w s) cs
members-IsUsable w [] ms s stand h = tt
members-IsUsable w (c ∷ cs) [] s stand h = absurd stand
members-IsUsable w (none ∷ cs) (m ∷ ms) s (stand, stands) (h, hs) =
    (tt, members-IsUsable w cs ms s stands hs)
members-IsUsable w (some j ∷ cs) (m ∷ ms) s ((c, found, there), stands) ((is, texts), hs) = (
  member-IsUsable w j m s c there (can_parse-class_of m c found) is texts,
  members-IsUsable w cs ms s stands hs,
)

-- If the XML file of a class or a file object that is not parsed yet holds what `build` makes of a
-- compounddef, as doxyxml reads it, and no memberdef in it is of the kind class, file or group, and each
-- has a class or can be reported in ASCII to have none, then the first use of the object succeeds: it is described by the texts of the compounddef, stripped,
-- and has one member for each name among the memberdefs; and the first use of each of these members
-- succeeds then.
pub confirm_no_error-build :
    (w : World) (i : ObjId) (o : Obj) (s : State) (ats : Attrs) (ns : Nodes) (fs : Fields)
    (d : Compounddef)
    → build Class.compounddef_type ats ns ≡ ok (instance_of Class.compounddef_type fs)
    → compounddef_of fs ≡ some d
    → IsReadable w i o d s
    → (o.cls ≡ doxy_class) ⊎ (o.cls ≡ doxy_file)
    → All IsMember (memberdefs_of d.sectiondef)
    → All IsPrintable (memberdefs_of d.sectiondef)
    → (cs : List (Option ObjId)) × (s' : State) × (confirm_no_error w i s ≡ (ok tt, s'))
      × At i (read_object d cs o) s'
      × Represent cs (firsts (memberdefs_of d.sectiondef)) s'
      × All (IsUsable w s') cs
confirm_no_error-build w i o s ats ns fs d built seen b c kinds fine =
    let (title, brief, detailed, sections) = AllTexts-build ats ns fs d built seen in
    let (cs, s', runs, there, stand, keeps, again) =
      confirm_no_error-IsReadable w i o d s b c brief detailed fine in
    let ms = memberdefs_of d.sectiondef in
    let all = All-both IsMember MemberText ms kinds (memberdefs-MemberText d.sectiondef sections) in
    (
      cs,
      s',
      runs,
      there,
      stand,
      members-IsUsable w cs (firsts ms) s' stand
          (All-firsts (λ m. IsMember m × MemberText m) ms all),
    )
