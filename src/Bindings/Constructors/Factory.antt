-- ===== src/Bindings/Constructors/Factory.antt =====
-- `factory` of the classes of compoundsuper.py: it makes an object of the subclass, if there is one.
use sdrportal.Prelude.{codes, Option, none, some, List, []}
use sdrportal.Exc.{Result, ok, ◌>>=◌}
use sdrportal.Bindings.Classes.{Class}
use sdrportal.Bindings.Schema.{Shape, structured, mixed, paragraph}
use sdrportal.Bindings.Tables.{schema}
use sdrportal.Bindings.Value.{Value, string, array, Values, Fields, set_field, value_of, content}
use sdrportal.Bindings.Constructors.{Sub, SuperParameter, super_parameters, super_init, sub_init}
use sdrportal.Bindings.Subs.{subclass}

-- What the constructor of docParaTypeSub sets after it called the other; no other one sets a field.
abbrev pub own_fields : Shape → Fields → Fields
own_fields paragraph fs = set_field content (array Values.nil) (
    set_field (codes "simplesects") (array Values.nil)
      (set_field (codes "parameterlist") (array Values.nil) fs))
own_fields _ fs = fs

abbrev pub init_of : Option Sub → List SuperParameter → List Value → Result Fields
init_of none ps vs = super_init ps vs
init_of (some s) ps vs = sub_init s ps vs

-- `T.factory(*args_)`
unfoldable pub factory : Class → List Value → Result Fields
unfolding subclass super_init sub_init set_field
factory c vs = do
  fs ← init_of (subclass c) (super_parameters (schema c)) vs
  ok (own_fields (schema c).shape fs)

-- `self.valueOf_ = ''`, with which `build` of a class with such a field begins.
abbrev pub reset_value : Shape → Fields → Fields
reset_value structured fs = fs
reset_value mixed fs = fs
reset_value _ fs = set_field value_of (string []) fs
