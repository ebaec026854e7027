-- ===== src/Bindings/Conform/Faulty.antt =====
-- The faults of a document that `build` meets: an element among what is to be text, and a number that
-- is none, in the places that the schemas give them.
use sdrportal.Prelude.{Text, Option, none, some, List, [], ◌∷◌, ◌⊎◌, ◌≡◌}
use sdrportal.Dom
use sdrportal.Dom.{Attrs, Node, element, comment, cdata, Nodes, nil, cons, get, local_name}
use sdrportal.Bindings.Classes.{Class}
use sdrportal.Bindings.Schema
use sdrportal.Bindings.Schema.{
  AttrKind, integer, Attr, attr, ChildKind, texts, simple, object, objects, title, complex, listed,
  Child, find_child,
}
use sdrportal.Bindings.Tables.{schema}
use sdrportal.Bindings.Build.{parse_int}

abbrev pub HasElement : Nodes → Type 0
HasElement nil = ⊥
HasElement (cons (element n ats cs) ns) = Unit
HasElement (cons (Dom.text t) ns) = HasElement ns
HasElement (cons (comment t) ns) = HasElement ns
HasElement (cons (cdata t) ns) = HasElement ns

abbrev pub BadNumber : AttrKind → Option Text → Type 0
BadNumber integer (some v) = parse_int v ≡ none
BadNumber _ _ = ⊥

abbrev pub BadAttrs : List Attr → Attrs → Type 0
BadAttrs [] given = ⊥
BadAttrs (attr kind key k ∷ rest) given = BadNumber kind (get key given) ⊎ BadAttrs rest given

-- The fault of a child of this kind: `W` if it is to be text, `B d` if an object of the class `d`.
abbrev pub FaultOf : ChildKind → Type 0 → (Class → Type 0) → Type 0
FaultOf Schema.text W B = W
FaultOf texts W B = W
FaultOf simple W B = W
FaultOf (object d) W B = B d
FaultOf (objects d) W B = B d
FaultOf (title d) W B = B d
FaultOf (complex d) W B = B d
FaultOf (listed d) W B = B d

abbrev pub FaultIn : Option Child → Type 0 → (Class → Type 0) → Type 0
FaultIn none W B = ⊥
FaultIn (some c) W B = FaultOf c.kind W B

unfoldable mutual
  unfolding find_child schema local_name get parse_int

  pub FaultyNode : Class → Node → Type 0
  FaultyNode c (element n ats cs) =
      FaultIn (find_child (local_name n) (schema c).children) (HasElement cs)
        (λ d. BadAttrs (schema d).attributes ats ⊎ Faulty d cs)
  FaultyNode c (Dom.text t) = ⊥
  FaultyNode c (cdata t) = ⊥
  FaultyNode c (comment t) = ⊥

  pub Faulty : Class → Nodes → Type 0
  Faulty c nil = ⊥
  Faulty c (cons n ns) = FaultyNode c n ⊎ Faulty c ns
