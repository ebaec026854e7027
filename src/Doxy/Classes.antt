-- ===== src/Doxy/Classes.antt =====
-- The classes of doxyindex.py, and how `Base.get_cls` chooses one for an object of the bindings.
pub mod Choice
use sdrportal.Prelude.{
  ℕ, zero, suc, Text, codes, Option, none, some, List, [], ◌∷◌, ◌++◌, Bool, true, false, ◌||◌, ◌==◌,
  text_eq, if◌then◌else◌,
}
use sdrportal.Exc.{Result, ok, err, standard_error}

pub data Cls : Type 0 where
  base doxy_index comp_mem compound member : Cls
  doxy_function doxy_param doxy_class doxy_file doxy_namespace doxy_group doxy_friend doxy_other :
      Cls

-- The class that a class extends.
abbrev pub parent : Cls → Option Cls
parent base = none
parent doxy_index = some base
parent comp_mem = some base
parent compound = some comp_mem
parent member = some comp_mem
parent doxy_function = some member
parent doxy_param = some member
parent doxy_class = some compound
parent doxy_file = some compound
parent doxy_namespace = some compound
parent doxy_group = some compound
parent doxy_friend = some member
parent doxy_other = some base

abbrev cls_code : Cls → ℕ
cls_code base = 0
cls_code doxy_index = 1
cls_code comp_mem = 2
cls_code compound = 3
cls_code member = 4
cls_code doxy_function = 5
cls_code doxy_param = 6
cls_code doxy_class = 7
cls_code doxy_file = 8
cls_code doxy_namespace = 9
cls_code doxy_group = 10
cls_code doxy_friend = 11
cls_code doxy_other = 12

abbrev pub cls_eq : Cls → Cls → Bool
cls_eq c d = cls_code c == cls_code d

-- `issubclass(c, d)`: no chain of parents is longer than four classes.
abbrev descends : ℕ → Cls → Cls → Bool
descends zero c d = cls_eq c d
descends (suc n) c d = cls_eq c d || elim (parent c) [ none ↦ false | some p ↦ descends n p d ]

abbrev pub is_subclass : Cls → Cls → Bool
is_subclass c d = descends 3 c d

-- The class attribute `kind`, for DoxyCompMem and its subclasses.
abbrev pub kind_of : Cls → Option Text
kind_of doxy_function = some (codes "function")
kind_of doxy_class = some (codes "class")
kind_of doxy_file = some (codes "file")
kind_of doxy_namespace = some (codes "namespace")
kind_of doxy_group = some (codes "group")
kind_of doxy_friend = some (codes "friend")
kind_of _ = none

abbrev pub other_kinds : List Text
other_kinds =
    codes "variable"
    ∷ codes "struct"
    ∷ codes "union"
    ∷ codes "define"
    ∷ codes "typedef"
    ∷ codes "enum"
    ∷ codes "dir"
    ∷ codes "page"
    ∷ []

unfoldable pub contains_text : Text → List Text → Bool
unfolding text_eq
contains_text t [] = false
contains_text t (u ∷ us) = text_eq t u || contains_text t us

abbrev pub same_kind : Option Text → Option Text → Bool
same_kind none none = true
same_kind none (some b) = false
same_kind (some a) none = false
same_kind (some a) (some b) = text_eq a b

abbrev in_kinds : Option Text → Bool
in_kinds none = false
in_kinds (some k) = contains_text k other_kinds

-- `cls.can_parse(obj)`, with the object's `kind`.
unfoldable pub can_parse : Cls → Option Text → Bool
unfolding text_eq contains_text
can_parse base k = false
can_parse doxy_index k = false
can_parse doxy_other k = in_kinds k
can_parse c k = same_kind k (kind_of c)

-- `Base.mem_classes`, in the order in which doxyindex.py fills it.
abbrev pub mem_classes : List Cls
mem_classes =
    doxy_function ∷ doxy_class ∷ doxy_file ∷ doxy_namespace ∷ doxy_group ∷ doxy_friend ∷ doxy_other
    ∷ []

-- The loop of `Base.get_cls`.
unfoldable pub first_class : List Cls → Option Text → Text → Result Cls
unfolding can_parse
first_class [] k name =
    err (standard_error (codes "Did not find a class for object '" ++ (name ++ codes "'.")))
first_class (c ∷ cs) k name = if can_parse c k then ok c else first_class cs k name

-- `Base.get_cls`, of an object with the given kind and name.
unfoldable pub get_cls : Option Text → Text → Result Cls
unfolding first_class
get_cls k name = first_class mem_classes k name
