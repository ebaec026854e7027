-- ===== src/Doxy/Objects/References.antt =====
-- `process_memberdefs` leaves the references alone: a memberdef has no `refid`.
use sdrportal.Prelude.{
  ◌≡◌, refl, ◌∙◌, Text, Option, some, List, [], ◌∷◌, inl, inr, Bool-cases, Option-cases,
}
use sdrportal.Exc.{Result, ok, err}
use sdrportal.Compound.{Memberdef, Compounddef}
use sdrportal.Quote.{is_ascii}
use sdrportal.Doxy.State.{ObjId, State, M, ◌>>=◌, continue, memberdef, get_obj?, read}
use sdrportal.Doxy.Heap.{get_obj?-snoc}
use sdrportal.Doxy.Objects.Conversion.{Result-cases}
use sdrportal.Doxy.Objects.{
  class_of, message, print_error, convert_mem, contains_name, append_member, memberdefs_loop,
  memberdefs_of_document, process_memberdefs, memberdefs_of,
}

abbrev KeepsSame : {A : Type 0} → M A → Type 0
KeepsSame m = (s : State) → (m s).1.refs ≡ s.refs

continue-KeepsSame :
    {A B : Type 0} (r : Result A) (k : A → M B) (s : State)
    → ((a : A) → KeepsSame (k a))
    → (continue r k s).1.refs ≡ s.refs
continue-KeepsSame (ok a) k s h = h a s
continue-KeepsSame (err e) k s h = refl

bind-KeepsSame :
    {A B : Type 0} (m : M A) (k : A → M B)
    → KeepsSame m
    → ((a : A) → KeepsSame (k a))
    → KeepsSame (m >>= k)
unfolding ◌>>=◌
bind-KeepsSame m k h g s = continue-KeepsSame (m s).0 k (m s).1 g ∙ h s

convert_mem-KeepsSame : (m : Memberdef) → KeepsSame (convert_mem (memberdef m))
unfolding convert_mem print_error
convert_mem-KeepsSame m s = elim (Result-cases (class_of (memberdef m))) [
  | inl (c, found) ↦ rw found (rw get_obj?-snoc refl)
  | inr (e, no_class) ↦ elim (Bool-cases (is_ascii (message e))) [
    | inl h ↦ rw no_class (rw h refl)
    | inr h ↦ rw no_class (rw h refl)
  ]
]

append_member-KeepsSame : (self : ObjId) (c : Option ObjId) → KeepsSame (append_member self c)
unfolding ◌>>=◌
append_member-KeepsSame self c s = elim (Option-cases (get_obj? s.heap self)) [
  | inl missing ↦ rw missing refl
  | inr (o, there) ↦ rw there refl
]

memberdefs_loop-KeepsSame :
    (self : ObjId) (seen : List Text) (ms : List Memberdef)
    → KeepsSame (memberdefs_loop self seen ms)
unfolding memberdefs_loop
memberdefs_loop-KeepsSame self seen [] = λ s. refl
memberdefs_loop-KeepsSame self seen (m ∷ ms) = elim (Bool-cases (contains_name m.name seen)) [
  | inl e ↦ rw e (
      bind-KeepsSame (convert_mem (memberdef m)) (λ x. memberdefs_loop self seen ms)
        (convert_mem-KeepsSame m) (λ x. memberdefs_loop-KeepsSame self seen ms))
  | inr e ↦ rw e (
      bind-KeepsSame (convert_mem (memberdef m)) _ (convert_mem-KeepsSame m) (λ x.
        bind-KeepsSame (append_member self x) (λ _. memberdefs_loop self (m.name ∷ seen) ms)
          (append_member-KeepsSame self x)
          (λ _. memberdefs_loop-KeepsSame self (m.name ∷ seen) ms)))
]

memberdefs_of_document-KeepsSame :
    (self : ObjId) (r : Option (Option (Option Compounddef)))
    → KeepsSame (memberdefs_of_document self r)
memberdefs_of_document-KeepsSame self (some (some (some c))) =
    memberdefs_loop-KeepsSame self [] (memberdefs_of c.sectiondef)
memberdefs_of_document-KeepsSame self _ = λ s. refl

pub process_memberdefs-refs :
    (self : ObjId) (s : State) → (process_memberdefs self s).1.refs ≡ s.refs
unfolding process_memberdefs
process_memberdefs-refs self =
    bind-KeepsSame (read self) (λ o. memberdefs_of_document self o.retrieved) (λ s. refl)
      (λ o. memberdefs_of_document-KeepsSame self o.retrieved)
