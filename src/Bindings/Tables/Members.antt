-- ===== src/Bindings/Tables/Members.antt =====
-- Classes of compoundsuper.py: members and their parts.
use sdrportal.Prelude.{codes, List, [], ◌∷◌, ◌++◌}
use sdrportal.Bindings.Classes.{Class}
use sdrportal.Bindings.Schema.{
  Attr, Child, Schema, attr, child, complex, encoded, integer, mixed, object, objects, plain,
  simple, structured, text, valued, valued_mixed,
}

abbrev pub sectiondef_type_schema : Schema
sectiondef_type_schema = record {
  shape = structured;
  attributes = attr plain (codes "kind") (codes "kind") ∷ [];
  children =
      child (codes "header") (codes "header") text
      ∷ child (codes "description") (codes "description") (object Class.description_type)
      ∷ child (codes "memberdef") (codes "memberdef") (objects Class.memberdef_type)
      ∷ [];
}

abbrev memberdef_attributes : List Attr
memberdef_attributes =
    attr plain (codes "initonly") (codes "initonly")
    ∷ attr plain (codes "kind") (codes "kind")
    ∷ attr plain (codes "volatile") (codes "volatile")
    ∷ attr plain (codes "const") (codes "const")
    ∷ attr plain (codes "raise") (codes "raisexx")
    ∷ attr plain (codes "virt") (codes "virt")
    ∷ attr plain (codes "readable") (codes "readable")
    ∷ attr plain (codes "prot") (codes "prot")
    ∷ attr plain (codes "explicit") (codes "explicit")
    ∷ attr plain (codes "new") (codes "new")
    ∷ attr plain (codes "final") (codes "final")
    ∷ attr plain (codes "writable") (codes "writable")
    ∷ attr plain (codes "add") (codes "add")
    ∷ attr plain (codes "static") (codes "static")
    ∷ attr plain (codes "remove") (codes "remove")
    ∷ attr plain (codes "sealed") (codes "sealed")
    ∷ attr plain (codes "mutable") (codes "mutable")
    ∷ attr plain (codes "gettable") (codes "gettable")
    ∷ attr plain (codes "inline") (codes "inline")
    ∷ attr plain (codes "settable") (codes "settable")
    ∷ attr encoded (codes "id") (codes "id")
    ∷ []

-- The declaration of a member.
abbrev memberdef_declaration : List Child
memberdef_declaration =
    child (codes "templateparamlist") (codes "templateparamlist")
      (object Class.templateparamlist_type)
    ∷ child (codes "type") (codes "type_") (object Class.linked_text_type)
    ∷ child (codes "definition") (codes "definition") text
    ∷ child (codes "argsstring") (codes "argsstring") text
    ∷ child (codes "name") (codes "name") text
    ∷ child (codes "read") (codes "read") text
    ∷ child (codes "write") (codes "write") text
    ∷ child (codes "bitfield") (codes "bitfield") text
    ∷ []

-- The members that it belongs to, and what it has several of.
abbrev memberdef_lists : List Child
memberdef_lists =
    child (codes "reimplements") (codes "reimplements") (objects Class.reimplement_type)
    ∷ child (codes "reimplementedby") (codes "reimplementedby") (objects Class.reimplement_type)
    ∷ child (codes "param") (codes "param") (objects Class.param_type)
    ∷ child (codes "enumvalue") (codes "enumvalue") (objects Class.enumvalue_type)
    ∷ []

-- What is said about it, and where it stands.
abbrev memberdef_descriptions : List Child
memberdef_descriptions =
    child (codes "initializer") (codes "initializer") (object Class.linked_text_type)
    ∷ child (codes "exceptions") (codes "exceptions") (object Class.linked_text_type)
    ∷ child (codes "briefdescription") (codes "briefdescription") (object Class.description_type)
    ∷ child (codes "detaileddescription") (codes "detaileddescription")
        (object Class.description_type)
    ∷ child (codes "inbodydescription") (codes "inbodydescription") (object Class.description_type)
    ∷ child (codes "location") (codes "location") (object Class.location_type)
    ∷ child (codes "references") (codes "references") (objects Class.reference_type)
    ∷ child (codes "referencedby") (codes "referencedby") (objects Class.reference_type)
    ∷ []

abbrev memberdef_children : List Child
memberdef_children = memberdef_declaration ++ (memberdef_lists ++ memberdef_descriptions)

abbrev pub memberdef_type_schema : Schema
memberdef_type_schema = record {
  shape = structured;
  attributes = memberdef_attributes;
  children = memberdef_children;
}

abbrev pub enumvalue_type_schema : Schema
enumvalue_type_schema = record {
  shape = mixed;
  attributes =
      attr plain (codes "prot") (codes "prot") ∷ attr encoded (codes "id") (codes "id") ∷ [];
  children =
      child (codes "name") (codes "name") simple
      ∷ child (codes "initializer") (codes "initializer") (complex Class.linked_text_type)
      ∷ child (codes "briefdescription") (codes "briefdescription") (complex Class.description_type)
      ∷ child (codes "detaileddescription") (codes "detaileddescription")
          (complex Class.description_type)
      ∷ [];
}

abbrev pub templateparamlist_type_schema : Schema
templateparamlist_type_schema = record {
  shape = structured;
  attributes = [];
  children = child (codes "param") (codes "param") (objects Class.param_type) ∷ [];
}

abbrev pub param_type_schema : Schema
param_type_schema = record {
  shape = structured;
  attributes = [];
  children =
      child (codes "type") (codes "type_") (object Class.linked_text_type)
      ∷ child (codes "declname") (codes "declname") text
      ∷ child (codes "defname") (codes "defname") text
      ∷ child (codes "array") (codes "array") text
      ∷ child (codes "defval") (codes "defval") (object Class.linked_text_type)
      ∷ child (codes "briefdescription") (codes "briefdescription") (object Class.description_type)
      ∷ [];
}

abbrev pub linked_text_type_schema : Schema
linked_text_type_schema = record {
  shape = mixed;
  attributes = [];
  children = child (codes "ref") (codes "ref") (complex Class.doc_ref_text_type) ∷ [];
}

abbrev pub reference_type_schema : Schema
reference_type_schema = record {
  shape = valued_mixed;
  attributes =
      attr integer (codes "endline") (codes "endline")
      ∷ attr integer (codes "startline") (codes "startline")
      ∷ attr encoded (codes "refid") (codes "refid")
      ∷ attr encoded (codes "compoundref") (codes "compoundref")
      ∷ [];
  children = [];
}

abbrev pub location_type_schema : Schema
location_type_schema = record {
  shape = valued;
  attributes =
      attr integer (codes "bodystart") (codes "bodystart")
      ∷ attr integer (codes "line") (codes "line")
      ∷ attr integer (codes "bodyend") (codes "bodyend")
      ∷ attr encoded (codes "bodyfile") (codes "bodyfile")
      ∷ attr encoded (codes "file") (codes "file")
      ∷ [];
  children = [];
}
