-- ===== src/Doxy/Parsing/Params.antt =====
-- What the loop of `DoxyFunction._parse` over the parameters does.
use sdrportal.Prelude.{
  ◌≡◌, ◌≢◌, refl, sym, subst, ◌∙◌, Option, none, some, List, [], ◌∷◌, ◌++◌, length, append_assoc,
  append-nil,
}
use sdrportal.Exc.{ok}
use sdrportal.Compound.{Param}
use sdrportal.Doxy.Classes.{doxy_param}
use sdrportal.Doxy.State.{ObjId, Obj, State, param, ◌>>◌, read}
use sdrportal.Doxy.Heap.{
  At, put, At-put, step_ok, read-At, modify-At, get_obj?-append, get_obj?-snoc, length-fresh,
}
use sdrportal.Doxy.Objects.{new_object}
use sdrportal.Doxy.Leaves.{append_param, params_loop}
use sdrportal.Doxy.Parsing.Readable.{Keeps, put-Keeps}

-- The objects of the parameters, in order: new, and made from them.
abbrev pub ParamObjects : List ObjId → List Param → State → Type 0
ParamObjects [] [] s = Unit
ParamObjects [] (p ∷ ps) s = ⊥
ParamObjects (i ∷ is) [] s = ⊥
ParamObjects (i ∷ is) (p ∷ ps) s =
    At i (new_object doxy_param (some (param p))) s × ParamObjects is ps s

abbrev pub with_params : List ObjId → Obj → Obj
with_params is o = record o { described = record o.described { params = some is } }

pub record Params (self : ObjId) (xs : List ObjId) (ps : List Param) (o : Obj) (s : State)
    : Type 0 where
  pub ids : List ObjId
  pub after : State
  pub runs : params_loop self ps s ≡ (ok tt, after)
  pub there : At self (with_params (xs ++ ids) o) after
  pub objects : ParamObjects ids ps after
  pub keeps : Keeps self s after

fresh-ne : (self : ObjId) (o : Obj) (s : State) → At self o s → length s.heap ≢ self
fresh-ne self o s at e =
    let missing : (◌≡◌ {A = Option Obj} none (some o)) =
      sym (length-fresh s.heap) ∙ subst (λ j. At j o s) (sym e) at in
    cc

pub params_lem :
    (self : ObjId) (xs : List ObjId) (ps : List Param) (o : Obj) (s : State)
    → At self (with_params xs o) s
    → Params self xs ps o s
unfolding params_loop
params_lem self xs [] o s at = record {
  ids = [];
  after = s;
  runs = refl;
  there = rw append-nil at;
  objects = tt;
  keeps = λ j v ne h. h;
}
params_lem self xs (p ∷ ps) o s at =
    let new : Obj = new_object doxy_param (some (param p)) in
    let i : ObjId = length s.heap in
    let s1 : State = record s { heap = s.heap ++ new ∷ [] } in
    let at1 : At self (with_params xs o) s1 = get_obj?-append s.heap _ self _ at in
    let s2 = put self (with_params (xs ++ i ∷ []) o) s1 in
    let rest = params_lem self (xs ++ i ∷ []) ps o s2 (At-put self _ _ s1 at1) in
    record {
      ids = i ∷ rest.ids;
      after = rest.after;
      runs =
          step_ok (read self) (λ x. append_param self i x.described.params >> params_loop self ps)
            s1 _ s1 (read-At self _ s1 at1)
          ∙ step_ok (append_param self i (some xs)) (λ _. params_loop self ps) s1 tt s2
              (modify-At self
                (λ x. record x { described = record x.described { params = some (xs ++ i ∷ []) } })
                (with_params xs o) s1 at1)
          ∙ rest.runs;
      there =
          subst (λ l. At self (with_params l o) rest.after) (append_assoc xs (i ∷ []) rest.ids)
            rest.there;
      objects = (
        rest.keeps i new (fresh-ne self _ s at)
            (put-Keeps self _ s1 i new (fresh-ne self _ s at) (get_obj?-snoc s.heap new)),
        rest.objects,
      );
      keeps = λ j v ne h.
          rest.keeps j v ne (put-Keeps self _ s1 j v ne (get_obj?-append s.heap _ j v h));
    }
