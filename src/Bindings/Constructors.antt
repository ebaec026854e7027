-- ===== src/Bindings/Constructors.antt =====
-- The constructors: `__init__` of the classes of compoundsuper.py, and of the subclasses in
-- compound.py, which call them with arguments by position.
pub mod Factory
pub mod Laws
pub mod Lost
mod Tests
use sdrportal.Prelude.{Text, codes, Option, none, some, List, [], ◌∷◌, ◌++◌, text_eq, if◌then◌else◌}
use sdrportal.Exc.{Result, ok, err, key_error, type_error, ◌>>=◌}
use sdrportal.Bindings.Schema.{
  Attr, attr, ChildKind, texts, simple, objects, complex, listed, Child, Shape, structured, valued,
  mixed, valued_mixed, paragraph, Schema,
}
use sdrportal.Bindings.Value.{
  Value, nothing, string, array, Values, Fields, end, field, value_of, content_,
}

-- A parameter with its default.
pub record Parameter : Type 0 where
  pub name : Text
  pub default : Value

abbrev pub none_by_default : Text → Parameter
none_by_default k = record { name = k; default = nothing }

abbrev pub empty_by_default : Text → Parameter
empty_by_default k = record { name = k; default = string [] }

-- The constructor of a subclass: its parameters, and those that it passes on.
pub record Sub : Type 0 where
  pub parameters : List Parameter
  pub passed : List Text

-- What a constructor does with an argument: it stores it; it stores it, or an empty list for `None`;
-- or it does not store it.
pub data Use : Type 0 where
  stores stores_list ignores : Use

abbrev pub store : Use → Text → Value → Fields → Fields
store stores k v fs = field k v fs
store stores_list k nothing fs = field k (array Values.nil) fs
store stores_list k v fs = field k v fs
store ignores k v fs = fs

-- A parameter of a constructor of compoundsuper.py.
pub record SuperParameter : Type 0 where
  pub name : Text
  pub default : Value
  pub treatment : Use

abbrev pub attr_parameters : List Attr → List SuperParameter → List SuperParameter
attr_parameters [] ps = ps
attr_parameters (attr kind key k ∷ ats) ps =
    record { name = k; default = nothing; treatment = stores } ∷ attr_parameters ats ps

abbrev pub child_use : ChildKind → Use
child_use texts = stores_list
child_use (objects c) = stores_list
child_use simple = ignores
child_use (complex c) = ignores
child_use (listed c) = ignores
child_use _ = stores

abbrev pub child_parameters : List Child → List SuperParameter → List SuperParameter
child_parameters [] ps = ps
child_parameters (c ∷ cs) ps =
    record { name = c.field; default = nothing; treatment = child_use c.kind }
    ∷ child_parameters cs ps

-- `mixedclass_` is the class MixedContainer unless it is given; no object stores another here.
abbrev mixed_parameters : List SuperParameter
mixed_parameters =
    record { name = codes "mixedclass_"; default = nothing; treatment = ignores }
    ∷ record { name = content_; default = nothing; treatment = stores_list }
    ∷ []

-- The parameters after those for the attributes; the children of a paragraph are compound.py's.
abbrev shape_parameters : Shape → List Child → List SuperParameter
shape_parameters structured cs = child_parameters cs []
shape_parameters valued cs =
    child_parameters cs (record { name = value_of; default = string []; treatment = stores } ∷ [])
shape_parameters mixed cs = child_parameters cs mixed_parameters
shape_parameters valued_mixed cs =
    child_parameters cs
      (record { name = value_of; default = string []; treatment = ignores } ∷ mixed_parameters)
shape_parameters paragraph cs =
    record { name = value_of; default = string []; treatment = ignores } ∷ mixed_parameters

-- The parameters of `__init__` of the class of compoundsuper.py.
abbrev pub super_parameters : Schema → List SuperParameter
super_parameters s = attr_parameters s.attributes (shape_parameters s.shape s.children)

-- `__init__` of a class of compoundsuper.py, with arguments by position.
unfoldable pub super_init : List SuperParameter → List Value → Result Fields
super_init [] [] = ok end
super_init [] (v ∷ vs) = err type_error
super_init (p ∷ ps) [] = do fs ← super_init ps []; ok (store p.treatment p.name p.default fs)
super_init (p ∷ ps) (v ∷ vs) = do fs ← super_init ps vs; ok (store p.treatment p.name v fs)

-- The arguments by the names of their parameters.
unfoldable pub bind : List Parameter → List Value → Result (List (Text × Value))
bind [] [] = ok []
bind [] (v ∷ vs) = err type_error
bind (p ∷ ps) [] = do env ← bind ps []; ok ((p.name, p.default) ∷ env)
bind (p ∷ ps) (v ∷ vs) = do env ← bind ps vs; ok ((p.name, v) ∷ env)

-- The value of a parameter; every name that is passed on is one.
unfoldable pub argument : Text → List (Text × Value) → Result Value
unfolding text_eq
argument k [] = err key_error
argument k ((j, v) ∷ env) = if text_eq j k then ok v else argument k env

unfoldable pub arguments : List Text → List (Text × Value) → Result (List Value)
unfolding argument
arguments [] env = ok []
arguments (k ∷ ks) env = do v ← argument k env; vs ← arguments ks env; ok (v ∷ vs)

-- `__init__` of a subclass up to what it sets itself.
unfoldable pub sub_init : Sub → List SuperParameter → List Value → Result Fields
unfolding super_init bind arguments
sub_init s ps vs = do
  env ← bind s.parameters vs
  passed ← arguments s.passed env
  super_init ps passed
