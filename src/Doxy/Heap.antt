-- ===== src/Doxy/Heap.antt =====
-- Stepping through methods: reads and writes of the heap, and calls whose outcome is known.
use sdrportal.Prelude.{◌≢◌, none, zero, suc, ◌≡◌, refl, ap, some, List, [], ◌∷◌, ◌++◌, length}
use sdrportal.Exc.{Exc, ok, err}
use sdrportal.Doxy.State.{ObjId, Obj, State, M, ◌>>=◌, get_obj?, set_obj, read, modify}

-- The object behind a reference.
abbrev pub At : ObjId → Obj → State → Type 0
At i o s = get_obj? s.heap i ≡ some o

abbrev pub put : ObjId → Obj → State → State
put i o s = record s { heap = set_obj s.heap i o }

pub get_obj?-set_obj_self :
    (h : List Obj) (i : ObjId) (o v : Obj)
    → get_obj? h i ≡ some o
    → get_obj? (set_obj h i v) i ≡ some v
get_obj?-set_obj_self [] i o v e = cc
get_obj?-set_obj_self (x ∷ h) zero o v e = refl
get_obj?-set_obj_self (x ∷ h) (suc i) o v e = get_obj?-set_obj_self h i o v e

pub get_obj?-set_obj_other :
    (h : List Obj) (i j : ObjId) (v : Obj) → i ≢ j → get_obj? (set_obj h j v) i ≡ get_obj? h i
get_obj?-set_obj_other [] i j v ne = refl
get_obj?-set_obj_other (x ∷ h) zero zero v ne = absurd (ne refl)
get_obj?-set_obj_other (x ∷ h) zero (suc j) v ne = refl
get_obj?-set_obj_other (x ∷ h) (suc i) zero v ne = refl
get_obj?-set_obj_other (x ∷ h) (suc i) (suc j) v ne =
    get_obj?-set_obj_other h i j v (λ e. ne (ap suc e))

pub length-fresh : (h : List Obj) → get_obj? h (length h) ≡ none
length-fresh [] = refl
length-fresh (x ∷ h) = length-fresh h

pub get_obj?-snoc : (h : List Obj) (o : Obj) → get_obj? (h ++ o ∷ []) (length h) ≡ some o
get_obj?-snoc [] o = refl
get_obj?-snoc (x ∷ h) o = get_obj?-snoc h o

pub set_obj-snoc : (h : List Obj) (o v : Obj) → set_obj (h ++ o ∷ []) (length h) v ≡ h ++ v ∷ []
set_obj-snoc [] o v = refl
set_obj-snoc (x ∷ h) o v = ap (λ (l : List Obj). x ∷ l) (set_obj-snoc h o v)

pub get_obj?-append :
    (h k : List Obj) (i : ObjId) (o : Obj) → get_obj? h i ≡ some o → get_obj? (h ++ k) i ≡ some o
get_obj?-append [] k i o e = cc
get_obj?-append (x ∷ h) k zero o e = e
get_obj?-append (x ∷ h) k (suc i) o e = get_obj?-append h k i o e

pub At-put : (i : ObjId) (o v : Obj) (s : State) → At i o s → At i v (put i v s)
At-put i o v s e = get_obj?-set_obj_self s.heap i o v e

-- One step of a method whose first call has a known outcome.
pub step_ok :
    {A B : Type 0} (m : M A) (k : A → M B) (s : State) (a : A) (s' : State)
    → m s ≡ (ok a, s')
    → (m >>= k) s ≡ k a s'
unfolding ◌>>=◌
step_ok m k s a s' e = rw e

pub step_err :
    {A B : Type 0} (m : M A) (k : A → M B) (s : State) (x : Exc) (s' : State)
    → m s ≡ (err x, s')
    → (m >>= k) s ≡ (err x, s')
unfolding ◌>>=◌
step_err m k s x s' e = rw e

pub read-At : (i : ObjId) (o : Obj) (s : State) → At i o s → read i s ≡ (ok o, s)
read-At i o s e = rw e

pub modify-At :
    (i : ObjId) (f : Obj → Obj) (o : Obj) (s : State)
    → At i o s
    → modify i f s ≡ (ok tt, put i (f o) s)
unfolding ◌>>=◌
modify-At i f o s e = rw e
