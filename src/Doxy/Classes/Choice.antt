-- ===== src/Doxy/Classes/Choice.antt =====
-- About `get_cls` of base.py and `can_parse` of doxyindex.py.
use sdrportal.Prelude.{
  Text, codes, Option, some, List, [], ◌∷◌, true, text_eq, text_eq→eq, ◌≡◌, ◌↔◌, inl, inr, refl,
  sym, subst, arith, All, Bool-cases,
}
use sdrportal.Exc.{ok}
use sdrportal.Doxy.Classes.{
  Cls, base, doxy_index, doxy_function, doxy_class, doxy_file, doxy_namespace, doxy_group,
  doxy_friend, doxy_other, contains_text, can_parse, other_kinds, mem_classes, first_class, get_cls,
}

first_class_sound :
    (cs : List Cls) (k : Option Text) (name : Text) (c : Cls)
    → first_class cs k name ≡ ok c
    → can_parse c k ≡ true
unfolding first_class
first_class_sound [] k name c h = cc
first_class_sound (d ∷ ds) k name c h = elim (Bool-cases (can_parse d k)) [
  | inl e ↦ let same : d ≡ c = ground arith in rw (← same) e
  | inr e ↦ first_class_sound ds k name c (ground arith)
]

contains_text-All :
    (P : Text → Type 0) (ts : List Text) → All P ts → (t : Text) → contains_text t ts ≡ true → P t
unfolding contains_text
contains_text-All P [] all t h = cc
contains_text-All P (u ∷ us) all t h = elim (Bool-cases (text_eq t u)) [
  | inl e ↦ subst P (sym (text_eq→eq t u e)) all.0
  | inr e ↦ contains_text-All P us all.1 t (ground arith)
]

module _ (name : Text) where
  by_kind :
      (c : Cls) (k kind : Text)
      → get_cls (some kind) name ≡ ok c
      → text_eq k kind ≡ true
      → get_cls (some k) name ≡ ok c
  by_kind c k kind r h = rw (text_eq→eq k kind h) r

  get_cls_complete :
      (c : Cls) (k : Text) → can_parse c (some k) ≡ true → get_cls (some k) name ≡ ok c
  unfolding get_cls can_parse
  get_cls_complete base k h = cc
  get_cls_complete doxy_index k h = cc
  get_cls_complete doxy_function k h = by_kind doxy_function k (codes "function") refl h
  get_cls_complete doxy_class k h = by_kind doxy_class k (codes "class") refl h
  get_cls_complete doxy_file k h = by_kind doxy_file k (codes "file") refl h
  get_cls_complete doxy_namespace k h = by_kind doxy_namespace k (codes "namespace") refl h
  get_cls_complete doxy_group k h = by_kind doxy_group k (codes "group") refl h
  get_cls_complete doxy_friend k h = by_kind doxy_friend k (codes "friend") refl h
  get_cls_complete doxy_other k h =
      contains_text-All (λ u. get_cls (some u) name ≡ ok doxy_other) other_kinds
        (refl, (refl, (refl, (refl, (refl, (refl, (refl, (refl, tt)))))))) k h
  get_cls_complete _ k h = cc

-- For an object with a kind, `get_cls` returns a class exactly if that class can parse the object:
-- at most one class can, so the order in which the classes were registered does not matter.
pub get_cls_iff :
    (k name : Text) (c : Cls) → (get_cls (some k) name ≡ ok c) ↔ (can_parse c (some k) ≡ true)
get_cls_iff k name c =
    (unfold get_cls in first_class_sound mem_classes (some k) name c, get_cls_complete name c k)
