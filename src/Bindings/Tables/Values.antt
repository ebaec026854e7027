-- ===== src/Bindings/Tables/Values.antt =====
-- Classes of compoundsuper.py: elements that are a text.
use sdrportal.Prelude.{[]}
use sdrportal.Bindings.Schema.{Schema, valued}

abbrev pub scope_schema : Schema
scope_schema = record { shape = valued; attributes = []; children = [] }

abbrev pub name_schema : Schema
name_schema = record { shape = valued; attributes = []; children = [] }

abbrev pub definition_schema : Schema
definition_schema = record { shape = valued; attributes = []; children = [] }

abbrev pub argsstring_schema : Schema
argsstring_schema = record { shape = valued; attributes = []; children = [] }

abbrev pub read_schema : Schema
read_schema = record { shape = valued; attributes = []; children = [] }

abbrev pub write_schema : Schema
write_schema = record { shape = valued; attributes = []; children = [] }

abbrev pub bitfield_schema : Schema
bitfield_schema = record { shape = valued; attributes = []; children = [] }

abbrev pub declname_schema : Schema
declname_schema = record { shape = valued; attributes = []; children = [] }

abbrev pub defname_schema : Schema
defname_schema = record { shape = valued; attributes = []; children = [] }

abbrev pub array_schema : Schema
array_schema = record { shape = valued; attributes = []; children = [] }

abbrev pub label_schema : Schema
label_schema = record { shape = valued; attributes = []; children = [] }

abbrev pub edgelabel_schema : Schema
edgelabel_schema = record { shape = valued; attributes = []; children = [] }

abbrev pub sp_schema : Schema
sp_schema = record { shape = valued; attributes = []; children = [] }
