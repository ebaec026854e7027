-- ===== src/Doxy/Objects/Interning.antt =====
-- About `from_refid` and `from_parse_data` of base.py.
use sdrportal.Prelude.{
  ◌≡◌, Text, Option, none, some, List, [], ◌∷◌, ◌++◌, length, text_eq_refl, arith, Option-cases,
  inl, inr,
}
use sdrportal.Exc.{ok}
use sdrportal.Doxy.Classes.{Cls}
use sdrportal.Doxy.State.{ObjId, Listed, ParseData, listed, State, lookup_ref, insert_ref}
use sdrportal.Doxy.Heap.{get_obj?-snoc, set_obj-snoc}
use sdrportal.Doxy.Objects.{new_object, make_registered, from_refid, from_parse_data}

lookup_ref-insert_ref_self :
    (r : Text) (i : ObjId) (refs : List (Text × ObjId))
    → lookup_ref r (insert_ref r i refs) ≡ some i
unfolding lookup_ref insert_ref
lookup_ref-insert_ref_self r i [] = rw text_eq_refl
lookup_ref-insert_ref_self r i ((k, j) ∷ rest) = ground (arith, lookup_ref-insert_ref_self r i rest)

unfoldable pub registered : Cls → Option ParseData → Text → State → State
registered c pd r s = record s {
  heap = s.heap ++ record (new_object c pd) { refid = some r } ∷ [];
  refs = insert_ref r (length s.heap) s.refs;
}

pub make_registered_lem :
    (c : Cls) (pd : Option ParseData) (r : Text) (s : State)
    → make_registered c pd r s ≡ (ok (length s.heap), registered c pd r s)
unfolding make_registered registered
make_registered_lem c pd r s = rw (get_obj?-snoc, set_obj-snoc, get_obj?-snoc)

pub lookup_ref-registered :
    (c : Cls) (pd : Option ParseData) (r : Text) (s : State)
    → lookup_ref r (registered c pd r s).refs ≡ some (length s.heap)
unfolding registered
lookup_ref-registered c pd r s = lookup_ref-insert_ref_self r (length s.heap) s.refs

-- Once a reference is known, both constructors return the object and change nothing.
module _ (r : Text) (i : ObjId) (s : State) (known : lookup_ref r s.refs ≡ some i) where
  from_refid-known : (d : Cls) → from_refid d r s ≡ (ok i, s)
  unfolding from_refid
  from_refid-known d = rw known

  from_parse_data-known :
      (d : Cls) (e : Listed) → e.refid ≡ some r → from_parse_data d (listed e) s ≡ (ok i, s)
  unfolding from_parse_data
  from_parse_data-known d e h = rw h (rw known)

from_refid-registers :
    (c : Cls) (r : Text) (s : State)
    → (i : ObjId) × ((from_refid c r s).0 ≡ ok i)
      × (lookup_ref r (from_refid c r s).1.refs ≡ some i)
unfolding from_refid
from_refid-registers c r s = elim (Option-cases (lookup_ref r s.refs)) [
  | inl fresh ↦ (
    length s.heap,
    rw fresh (rw (make_registered_lem c none r s)),
    rw fresh (rw (make_registered_lem c none r s) (lookup_ref-registered c none r s)),
  )
  | inr (i, known) ↦ (i, rw known, rw known known)
]

-- After `from_refid` has returned an object for a reference, `from_refid` and `from_parse_data`
-- return that very object for the reference, for any class that they are called on, and change
-- nothing.
pub from_refid-interns :
    (c d : Cls) (r : Text) (e : Listed) (s : State)
    → e.refid ≡ some r
    → (i : ObjId) × ((from_refid c r s).0 ≡ ok i)
      × (from_refid d r (from_refid c r s).1 ≡ (ok i, (from_refid c r s).1))
      × (from_parse_data d (listed e) (from_refid c r s).1 ≡ (ok i, (from_refid c r s).1))
from_refid-interns c d r e s h =
    let (i, result, known) = from_refid-registers c r s in
    let after = (from_refid c r s).1 in
    (i, result, from_refid-known r i after known d, from_parse_data-known r i after known d e h)
