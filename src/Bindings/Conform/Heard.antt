-- ===== src/Bindings/Conform/Heard.antt =====
-- How the text of an object of mixed content grows when a field is written.
use sdrportal.Prelude.{
  Text, Option, none, some, [], ◌++◌, append_assoc, append-nil, false, text_eq, text_eq_iff,
  text_eq_refl, ◌≡◌, refl, sym, ap, ◌∙◌, Bool-cases, Option-cases, inl, inr,
}
use sdrportal.Exc.{Result, ok, err, attribute_error, ◌>>=◌}
use sdrportal.Describe.{Bits}
use sdrportal.Describe.Laws.{flat, flat_all}
use sdrportal.Bindings.Value.{
  Value, array, Values, nil, cons, Fields, end, field, get_field, set_field, snoc, with_item,
  with_text, append_field, extend_field,
}
use sdrportal.Bindings.Bits.{bit_of, bits_of, items_of, items_at}

-- The text of the items that a field holds.
abbrev pub heard_items : Option Bits → Text
heard_items none = []
heard_items (some items) = flat_all items

abbrev pub heard : Text → Fields → Text
heard k fs = heard_items (items_at k fs)

pub bind-ok {ℓ κ} :
    {A : Type ℓ} {B : Type κ} (r : Result A) (f : A → Result B) (b : B)
    → (r >>= f) ≡ ok b
    → (a : A) × (r ≡ ok a) × (f a ≡ ok b)
bind-ok (ok a) f b e = (a, refl, e)
bind-ok (err x) f b e = absurd cc

set_field-here :
    (k : Text) (v : Value) (fs : Fields) → items_at k (set_field k v fs) ≡ some (items_of v)
unfolding set_field items_at
set_field-here k v end = rw (text_eq_refl k) refl
set_field-here k v (field j w fs) = elim (Bool-cases (text_eq j k)) [
  | inl e ↦ rw (e, e) refl
  | inr e ↦ rw (e, e) (set_field-here k v fs)
]

pub set_field-other :
    (k j : Text) (v : Value) (fs : Fields)
    → text_eq j k ≡ false
    → items_at k (set_field j v fs) ≡ items_at k fs
unfolding set_field items_at
set_field-other k j v end other = rw other refl
set_field-other k j v (field i w fs) other = elim (Bool-cases (text_eq i j)) [
  | inl e ↦
      let same : text_eq i k ≡ false = ap (λ x. text_eq x k) ((text_eq_iff i j).0 e) ∙ other in
      rw (e, same) refl
  | inr e ↦ rw e (elim (Bool-cases (text_eq i k)) [
    | inl here ↦ rw here refl
    | inr there ↦ rw there (set_field-other k j v fs other)
  ])
]

get_field-items :
    (k : Text) (w : Value) (fs : Fields)
    → get_field k fs ≡ some w
    → items_at k fs ≡ some (items_of w)
unfolding get_field items_at
get_field-items k w end e = cc
get_field-items k w (field j v fs) e = elim (Bool-cases (text_eq j k)) [
  | inl here ↦ let first : get_field k (field j v fs) ≡ some v = rw here refl in rw here (cc)
  | inr there ↦
      let rest : get_field k (field j v fs) ≡ get_field k fs = rw there refl in
      rw there (get_field-items k w fs (sym rest ∙ e))
]

snoc-flat :
    (vs : Values) (v : Value)
    → flat_all (bits_of (snoc vs v)) ≡ flat_all (bits_of vs) ++ flat (bit_of v)
unfolding snoc bits_of flat_all
snoc-flat nil v = append-nil (flat (bit_of v))
snoc-flat (cons w vs) v =
    rw (snoc-flat vs v)
      (sym (append_assoc (flat (bit_of w)) (flat_all (bits_of vs)) (flat (bit_of v))))

with_item-flat :
    (w v u : Value)
    → with_item v (some w) ≡ ok u
    → flat_all (items_of u) ≡ flat_all (items_of w) ++ flat (bit_of v)
unfolding items_of
with_item-flat (array vs) v u e =
    let same : array (snoc vs v) ≡ u = cc in
    ap (λ x. flat_all (items_of x)) (sym same) ∙ snoc-flat vs v
with_item-flat w v u e = absurd cc

ok_value {ℓ} : {A : Type ℓ} {a b : A} → Result.ok a ≡ ok b → a ≡ b
ok_value e = cc

-- What `append` does to the text of its own field, and of another.
pub append-heard :
    (k : Text) (v : Value) (fs gs : Fields)
    → append_field k v fs ≡ ok gs
    → heard k gs ≡ heard k fs ++ flat (bit_of v)
unfolding append_field
append-heard k v fs gs e = elim (Option-cases (get_field k fs)) [
  | inl lacks ↦ let fails : append_field k v fs ≡ err attribute_error = rw lacks refl in absurd cc
  | inr (w, got) ↦
      let (u, joined, written) =
        bind-ok (with_item v (get_field k fs)) (λ items. ok (set_field k items fs)) gs e in
      let adds = with_item-flat w v u (ap (with_item v) (sym got) ∙ joined) in
      rw (sym (ok_value written), set_field-here k u fs, get_field-items k w fs got) adds
]

pub append-heard_other :
    (k j : Text) (v : Value) (fs gs : Fields)
    → text_eq j k ≡ false
    → append_field j v fs ≡ ok gs
    → heard k gs ≡ heard k fs
unfolding append_field
append-heard_other k j v fs gs other e =
    let (u, joined, written) =
      bind-ok (with_item v (get_field j fs)) (λ items. ok (set_field j items fs)) gs e in
    rw (sym (ok_value written), set_field-other k j u fs other) refl

pub extend-heard_other :
    (k j t : Text) (fs gs : Fields)
    → text_eq j k ≡ false
    → extend_field j t fs ≡ ok gs
    → heard k gs ≡ heard k fs
unfolding extend_field
extend-heard_other k j t fs gs other e =
    let (u, joined, written) =
      bind-ok (with_text t (get_field j fs)) (λ s. ok (set_field j s fs)) gs e in
    rw (sym (ok_value written), set_field-other k j u fs other) refl
