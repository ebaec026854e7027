-- ===== src/Doxy/State.antt =====
-- The heap of doxyxml objects, what a `World` outside the program answers, and the monad of methods
-- that read and write objects and may raise. What was written before a raise stays written.
use sdrportal.Prelude.{
  ℕ, zero, suc, Text, Option, none, some, List, [], ◌∷◌, ◌++◌, Bool, text_eq, length, if◌then◌else◌,
}
use sdrportal.Exc.{Exc, Result, ok, err, attribute_error}
use sdrportal.Dom.{Node}
use sdrportal.Compound.{Param, Memberdef, Compounddef}
use sdrportal.Doxy.Classes.{Cls}

abbrev pub ObjId : Type 0
ObjId = ℕ

-- The bindings' object that a doxyxml object was made from. The parse data of the index is the
-- path of the directory; a name that the bindings built is never `None`.
pub record Listed : Type 0 where
  pub kind : Option Text
  pub refid : Option Text
  pub name : Text

pub data ParseData : Type 0 where
  directory : Text → ParseData
  listed : Listed → ParseData
  memberdef : Memberdef → ParseData
  param : Param → ParseData

-- What `compound.parse(filename)` comes to: ExpatError, IOError, an exception of the bindings, or a
-- document.
pub data Loaded : Type 0 where
  bad_xml no_file : Loaded
  failed : Exc → Loaded
  document : Option Compounddef → Loaded

-- The directory of XML files: the document element of a file read by `minidom.parse`, what
-- `compound.parse` makes of a file, and `os.path.join`.
pub record World : Type 0 where
  pub join_path : Text → Text → Text
  pub index_file : Text → Result Node
  pub compound_file : Text → Loaded

-- A category is `None`, a class of doxyindex.py, or swig_doc.py's `Block`.
pub data Category : Type 0 where
  everything : Category
  instances : Cls → Category
  blocks : Category

-- A value of the dictionaries of members.
pub data Entry : Type 0 where
  one : ObjId → Entry
  duplicates : Entry

-- The dictionary `_data`, by its keys; the outer option tells whether the key is there.
pub record Described : Type 0 where
  pub brief_description : Option (Option Text)
  pub detailed_description : Option (Option Text)
  pub title : Option (Option Text)
  pub params : Option (List ObjId)
  pub declname : Option Text

-- An object. `members` may hold `None`. `retrieved` is `_retrieved_data`: absent, `None`, or the
-- document.
pub record Obj : Type 0 where
  pub cls : Cls
  pub parse_data : Option ParseData
  pub refid : Option Text
  pub parsed : Bool
  pub error : Bool
  pub members : List (Option ObjId)
  pub dict_members : List (Category × List (Text × Entry))
  pub in_category : List (Category × List (Option ObjId))
  pub described : Described
  pub retrieved : Option (Option (Option Compounddef))

-- All objects have one `top`, whose `_refs` and `_xml_path` stand here; `printed` is the output.
pub record State : Type 0 where
  pub heap : List Obj
  pub refs : List (Text × ObjId)
  pub xml_path : Text
  pub printed : List Text

abbrev pub M : Type 0 → Type 0
M A = State → Result A × State

abbrev pub continue : {A B : Type 0} → Result A → (A → M B) → M B
continue (ok a) f s = f a s
continue (err e) f s = (err e, s)

infixl 5 ◌>>=◌ ◌>>◌
unfoldable pub ◌>>=◌ : {A B : Type 0} → M A → (A → M B) → M B
◌>>=◌ m f s = let (r, s') = m s in continue r f s'

abbrev pub ◌>>◌ : {A B : Type 0} → M A → M B → M B
m >> k = m >>= λ _. k

abbrev pub pure : {A : Type 0} → A → M A
pure a s = (ok a, s)

abbrev pub raise : {A : Type 0} → Exc → M A
raise e s = (err e, s)

abbrev pub lift : {A : Type 0} → Result A → M A
lift r s = (r, s)

abbrev pub get_obj? : List Obj → ObjId → Option Obj
get_obj? [] i = none
get_obj? (o ∷ os) zero = some o
get_obj? (o ∷ os) (suc i) = get_obj? os i

abbrev pub set_obj : List Obj → ObjId → Obj → List Obj
set_obj [] i v = []
set_obj (o ∷ os) zero v = v ∷ os
set_obj (o ∷ os) (suc i) v = o ∷ set_obj os i v

abbrev or_dangling : Option Obj → Result Obj
or_dangling none = err attribute_error
or_dangling (some o) = ok o

-- The object behind a reference; there is always one.
abbrev pub read : ObjId → M Obj
read i s = (or_dangling (get_obj? s.heap i), s)

abbrev pub write : ObjId → Obj → M (Unit {0})
write i o s = (ok tt, record s { heap = set_obj s.heap i o })

abbrev pub modify : ObjId → (Obj → Obj) → M (Unit {0})
modify i f = do o ← read i; write i (f o)

abbrev pub print_line : Text → M (Unit {0})
print_line t s = (ok tt, record s { printed = s.printed ++ t ∷ [] })

abbrev pub alloc : Obj → M ObjId
alloc o s = (ok (length s.heap), record s { heap = s.heap ++ o ∷ [] })

-- `self.top._refs` as a dictionary.
unfoldable pub lookup_ref : Text → List (Text × ObjId) → Option ObjId
unfolding text_eq
lookup_ref r [] = none
lookup_ref r ((k, i) ∷ rest) = if text_eq k r then some i else lookup_ref r rest

unfoldable pub insert_ref : Text → ObjId → List (Text × ObjId) → List (Text × ObjId)
unfolding text_eq
insert_ref r i [] = (r, i) ∷ []
insert_ref r i ((k, j) ∷ rest) = if text_eq k r then (k, i) ∷ rest else (k, j) ∷ insert_ref r i rest
