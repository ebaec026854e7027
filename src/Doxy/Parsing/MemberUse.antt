-- ===== src/Doxy/Parsing/MemberUse.antt =====
-- What the first use of a function or a parameter object does.
use sdrportal.Prelude.{◌≡◌, refl, ap, ◌∙◌, Text, Option, none, some, List, [], true, false}
use sdrportal.Exc.{ok}
use sdrportal.Describe.{Bit}
use sdrportal.Compound.{Param, Memberdef}
use sdrportal.Bindings.Conform.Viewed.{SomeText}
use sdrportal.Doxy.Classes.{doxy_function, doxy_param}
use sdrportal.Doxy.State.{ObjId, World, Obj, State, M, memberdef, param, ◌>>=◌, ◌>>◌, lift, read}
use sdrportal.Doxy.Heap.{At, put, At-put, step_ok, read-At, modify-At}
use sdrportal.Doxy.Leaves.{
  describe, set_descriptions, own_descriptions, parameters, params_loop, mark_parsed,
  parse_function, parse_param, parse_below, declname_of,
}
use sdrportal.Doxy.Parsing.{parse_object, confirm_no_error}
use sdrportal.Doxy.Parsing.Params.{ParamObjects, params_lem}
use sdrportal.Doxy.Parsing.Readable.{
  described_by, set_descriptions_lem, Keeps, put-Keeps, confirm_parses,
}

-- A function object once it was parsed.
abbrev pub read_function : Memberdef → List ObjId → Obj → Obj
read_function m is o = record o {
  parsed = true;
  described = record (described_by m.briefdescription m.detaileddescription o.described) {
    params = some is;
  };
}

-- A parameter object once it was parsed.
abbrev pub read_param : Param → Obj → Obj
read_param p o = record o {
  parsed = true;
  described = record (described_by p.briefdescription none o.described) {
    declname = some p.declname;
  };
}

-- `_parse` of a function and of a parameter begin alike.
describes :
    (i : ObjId) (o : Obj) (brief detailed : Option Bit) (next : Obj → M (Unit {0})) (s : State)
    → At i o s
    → own_descriptions o.parse_data ≡ (brief, detailed)
    → SomeText brief
    → SomeText detailed
    → (s' : State) × ((mark_parsed i
            >> (read i >>= λ x. set_descriptions i (own_descriptions x.parse_data) >> next x))
          s
        ≡ next (record o { parsed = true }) s')
      × At i (record o { parsed = true; described = described_by brief detailed o.described }) s'
      × Keeps i s s'
describes i o brief detailed next s at own h k =
    let o1 : Obj = record o { parsed = true } in
    let s1 = put i o1 s in
    let at1 = At-put i o o1 s at in
    let o2 : Obj = record o1 { described = described_by brief detailed o.described } in
    (
      put i o2 s1,
      step_ok (mark_parsed i)
            (λ _. read i >>= λ x. set_descriptions i (own_descriptions x.parse_data) >> next x) s tt
            s1 (modify-At i (λ x. record x { parsed = true }) o s at)
          ∙ step_ok (read i) (λ x. set_descriptions i (own_descriptions x.parse_data) >> next x) s1
              o1 s1 (read-At i o1 s1 at1)
          ∙ step_ok (set_descriptions i (own_descriptions o.parse_data)) (λ _. next o1) s1 tt
              (put i o2 s1)
              (ap (λ (own : Option Bit × Option Bit). set_descriptions i own s1) own
                ∙ set_descriptions_lem i o1 brief detailed s1 at1 h k),
      At-put i o1 o2 s1 at1,
      λ j v ne h. put-Keeps i o2 s1 j v ne (put-Keeps i o1 s j v ne h),
    )

-- The first use of a function object that is not parsed yet succeeds if the descriptions of its
-- memberdef, where it has them, have a text. The object is then parsed; its descriptions are those
-- texts, stripped; its parameters are new objects, one made from each parameter in order; no other
-- object has changed; and the next use of it succeeds and changes nothing.
pub confirm_no_error-function :
    (w : World) (i : ObjId) (o : Obj) (m : Memberdef) (s : State)
    → At i o s
    → o.parsed ≡ false
    → o.error ≡ false
    → o.cls ≡ doxy_function
    → o.parse_data ≡ some (memberdef m)
    → SomeText m.briefdescription
    → SomeText m.detaileddescription
    → (is : List ObjId) × (s' : State) × (confirm_no_error w i s ≡ (ok tt, s'))
      × At i (read_function m is o) s'
      × ParamObjects is m.param s'
      × Keeps i s s'
      × (confirm_no_error w i s' ≡ (ok tt, s'))
unfolding parse_below parse_function
confirm_no_error-function w i o m s at unparsed fine cls made brief detailed =
    let (s1, starts, at1, keeps1) =
      describes i o m.briefdescription m.detaileddescription
        (λ x.
          describe i (λ d. record d { params = some [] })
          >> (parameters x.parse_data >>= λ ps. params_loop i ps))
        s at (ap own_descriptions made) brief detailed in
    let o2 = read_function m [] o in
    let s2 = put i o2 s1 in
    let loop = params_lem i [] m.param o2 s2 (At-put i _ o2 s1 at1) in
    let runs : parse_object w o.cls i s ≡ (ok tt, loop.after) =
      ap (λ c. parse_object w c i s) cls
      ∙ starts
      ∙ step_ok (describe i (λ d. record d { params = some [] }))
          (λ _. parameters o.parse_data >>= λ ps. params_loop i ps) s1 tt s2
          (modify-At i (λ x. record x { described = record x.described { params = some [] } }) _ s1
            at1)
      ∙ step_ok (parameters o.parse_data) (λ ps. params_loop i ps) s2 m.param s2
          (ap (λ pd. parameters pd s2) made)
      ∙ loop.runs in
    let (first, again) =
      confirm_parses w i o (read_function m loop.ids o) s loop.after at unparsed runs loop.there
        refl fine in
    (
      loop.ids,
      loop.after,
      first,
      loop.there,
      loop.objects,
      λ j v ne h. loop.keeps j v ne (put-Keeps i o2 s1 j v ne (keeps1 j v ne h)),
      again,
    )

-- The first use of a parameter object that is not parsed yet succeeds if the brief description of
-- its parameter, where it has one, has a text. The object is then parsed; its brief description is
-- that text, stripped, it has no detailed one, and its name is the one declared; no other object has
-- changed; and the next use of it succeeds and changes nothing.
pub confirm_no_error-param :
    (w : World) (i : ObjId) (o : Obj) (p : Param) (s : State)
    → At i o s
    → o.parsed ≡ false
    → o.error ≡ false
    → o.cls ≡ doxy_param
    → o.parse_data ≡ some (param p)
    → SomeText p.briefdescription
    → (s' : State) × (confirm_no_error w i s ≡ (ok tt, s'))
      × At i (read_param p o) s'
      × Keeps i s s'
      × (confirm_no_error w i s' ≡ (ok tt, s'))
unfolding parse_below parse_param
confirm_no_error-param w i o p s at unparsed fine cls made brief =
    let named = λ (name : Text). describe i (λ d. record d { declname = some name }) in
    let (s1, starts, at1, keeps1) =
      describes i o p.briefdescription none (λ x. lift (declname_of x.parse_data) >>= named) s at
        (ap own_descriptions made) brief tt in
    let s2 = put i (read_param p o) s1 in
    let there = At-put i _ (read_param p o) s1 at1 in
    let runs : parse_object w o.cls i s ≡ (ok tt, s2) =
      ap (λ c. parse_object w c i s) cls
      ∙ starts
      ∙ step_ok (lift (declname_of o.parse_data)) named s1 p.declname s1
          (ap (λ pd. lift (declname_of pd) s1) made)
      ∙ modify-At i
          (λ x. record x { described = record x.described { declname = some p.declname } }) _ s1
          at1 in
    let (first, again) =
      confirm_parses w i o (read_param p o) s s2 at unparsed runs there refl fine in
    (s2, first, there, λ j v ne h. put-Keeps i _ s1 j v ne (keeps1 j v ne h), again)
