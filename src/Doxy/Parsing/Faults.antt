-- ===== src/Doxy/Parsing/Faults.antt =====
-- What a file of broken XML does to the object that is parsed from it.
use sdrportal.Prelude.{
  ◌≡◌, refl, sym, ap, ◌∙◌, Text, codes, Option, none, some, [], ◌∷◌, ◌++◌, true, false, ◌⊎◌, inl,
  inr,
}
use sdrportal.Exc.{Exc, attribute_error, parsing_error, Result, ok, err}
use sdrportal.Doxy.Classes.{Cls, doxy_class, doxy_file, doxy_group}
use sdrportal.Doxy.State.{
  ObjId, World, bad_xml, Obj, State, M, ◌>>=◌, ◌>>◌, read, print_line, modify,
}
use sdrportal.Doxy.Heap.{At, put, At-put, step_ok, step_err, read-At, modify-At}
use sdrportal.Doxy.Leaves.{
  mark_parsed, retrieve, retrieve_named, retrieve_data, take_document, parse_class, parse_file,
  parse_group, parse_below, unless_parsed, no_error,
}
use sdrportal.Doxy.Parsing.{parse_object, check_parsed, confirm_no_error}

-- What the first use of an object raises if its file is broken, for the classes that read a file: a
-- file object is described before its error is looked at.
abbrev pub fault_of : Cls → Option Exc
fault_of doxy_class = some parsing_error
fault_of doxy_group = some parsing_error
fault_of doxy_file = some attribute_error
fault_of _ = none

-- The object is not parsed yet, and its XML file is broken.
pub record IsBroken (w : World) (i : ObjId) (o : Obj) (s : State) : Type 0 where
  pub at : At i o s
  pub unparsed : o.parsed ≡ false
  pub refid : Text
  pub named : o.refid ≡ some refid
  pub broken : w.compound_file (w.join_path s.xml_path (refid ++ codes ".xml")) ≡ bad_xml

-- The object once its file was found to be broken.
abbrev pub broken_object : Obj → Obj
broken_object o = record o { parsed = true; error = true; retrieved = some none }

module _ (w : World) (i : ObjId) where
  retrieve_named_broken :
      (refid : Text) (o : Obj) (s : State)
      → At i o s
      → w.compound_file (w.join_path s.xml_path (refid ++ codes ".xml")) ≡ bad_xml
      → (s' : State) × (retrieve_named w i (some refid) s ≡ (ok tt, s'))
        × At i (record o { error = true; retrieved = some none }) s'
  retrieve_named_broken refid o s at broken =
      let line = codes "Error in xml in file " ++ w.join_path s.xml_path (refid ++ codes ".xml") in
      let s1 : State = record s { printed = s.printed ++ line ∷ [] } in
      let f : Obj → Obj = λ x. retrieve none (record x { error = true }) in
      (
        put i (f o) s1,
        ap (λ l. take_document w i (w.join_path s.xml_path (refid ++ codes ".xml")) l s) broken
            ∙ step_ok (print_line line) (λ _. modify i f) s tt s1 refl
            ∙ modify-At i f o s1 at,
        At-put i o (f o) s1 at,
      )

  -- An object that was found to be broken raises ParsingError.
  confirm_again :
      (v : Obj) (s : State)
      → At i v s
      → v.parsed ≡ true
      → v.error ≡ true
      → confirm_no_error w i s ≡ (err parsing_error, s)
  unfolding confirm_no_error check_parsed
  confirm_again v s at p e =
      step_ok (check_parsed w i) (λ _. read i >>= λ x. no_error w x.error) s tt s
        (step_ok (read i) (λ x. unless_parsed w x.parsed (parse_object w x.cls i)) s v s
            (read-At i v s at)
          ∙ ap (λ b. unless_parsed w b (parse_object w v.cls i) s) p)
      ∙ step_ok (read i) (λ x. no_error w x.error) s v s (read-At i v s at)
      ∙ ap (λ b. no_error w b s) e

  module _ (o : Obj) (s : State) (b : IsBroken w i o s) where
    -- The three classes that read a file begin alike.
    parse_begins :
        (next : Obj → M (Unit {0}))
        → (s' : State) × ((mark_parsed i >> (retrieve_data w i >> (read i >>= next))) s
            ≡ next (broken_object o) s')
          × At i (broken_object o) s'
    unfolding retrieve_data
    parse_begins next =
        let o1 : Obj = record o { parsed = true } in
        let s1 = put i o1 s in
        let at1 = At-put i o o1 s b.at in
        let (s2, runs, at2) = retrieve_named_broken b.refid o1 s1 at1 b.broken in
        let retrieves : retrieve_data w i s1 ≡ (ok tt, s2) =
          step_ok (read i) (λ x. retrieve_named w i x.refid) s1 o1 s1 (read-At i o1 s1 at1)
          ∙ ap (λ r. retrieve_named w i r s1) b.named
          ∙ runs in
        (
          s2,
          step_ok (mark_parsed i) (λ _. retrieve_data w i >> (read i >>= next)) s tt s1
                (modify-At i (λ x. record x { parsed = true }) o s b.at)
              ∙ step_ok (retrieve_data w i) (λ _. read i >>= next) s1 tt s2 retrieves
              ∙ step_ok (read i) next s2 (broken_object o) s2 (read-At i (broken_object o) s2 at2),
          at2,
        )

    -- The outcome of `_parse`, and what is then raised.
    abbrev Parsed : Cls → Exc → Type 0
    Parsed c x =
        (r : Result (Unit {0})) × (s' : State) × (parse_object w c i s ≡ (r, s'))
        × At i (broken_object o) s'
        × ((r ≡ err x) ⊎ ((r ≡ ok tt) × (x ≡ parsing_error)))

    parse_object_broken : (c : Cls) (x : Exc) → fault_of c ≡ some x → Parsed c x
    unfolding parse_below parse_class parse_file parse_group ◌>>=◌
    parse_object_broken doxy_class x h =
        let (s', runs, at) = parse_begins _ in (ok tt, s', runs, at, inr (refl, cc))
    parse_object_broken doxy_group x h =
        let (s', runs, at) = parse_begins _ in (ok tt, s', runs, at, inr (refl, cc))
    parse_object_broken doxy_file x h =
        let (s', runs, at) = parse_begins _ in (err attribute_error, s', runs, at, inl cc)
    parse_object_broken _ x h = cc

    check_parsed_runs :
        (r : Result (Unit {0})) (s' : State)
        → parse_object w o.cls i s ≡ (r, s')
        → check_parsed w i s ≡ (r, s')
    unfolding check_parsed
    check_parsed_runs r s' runs =
        step_ok (read i) (λ x. unless_parsed w x.parsed (parse_object w x.cls i)) s o s
          (read-At i o s b.at)
        ∙ ap (λ p. unless_parsed w p (parse_object w o.cls i) s) b.unparsed
        ∙ runs

    first_fault :
        (x : Exc)
        → Parsed o.cls x
        → (s' : State) × (confirm_no_error w i s ≡ (err x, s')) × At i (broken_object o) s'
    unfolding confirm_no_error
    first_fault x (r, s', runs, at, inl raised) = (
      s',
      step_err (check_parsed w i) (λ _. read i >>= λ v. no_error w v.error) s x s'
          (check_parsed_runs r s' runs ∙ ap (λ (y : Result (Unit {0})). (y, s')) raised),
      at,
    )
    first_fault x (r, s', runs, at, inr (fine, same)) = (
      s',
      step_ok (check_parsed w i) (λ _. read i >>= λ v. no_error w v.error) s tt s'
            (check_parsed_runs r s' runs ∙ ap (λ (y : Result (Unit {0})). (y, s')) fine)
          ∙ step_ok (read i) (λ v. no_error w v.error) s' (broken_object o) s'
              (read-At i (broken_object o) s' at)
          ∙ ap (λ (y : Exc). (err y, s')) (sym same),
      at,
    )

-- An object that reads a file, if the file is broken XML, raises at its first use ParsingError if it
-- is a class or a group, and AttributeError if it is a file; the next use of any of them raises
-- ParsingError and changes nothing.
pub confirm_no_error-IsBroken :
    (w : World) (i : ObjId) (o : Obj) (s : State) (x : Exc)
    → IsBroken w i o s
    → fault_of o.cls ≡ some x
    → (s' : State) × (confirm_no_error w i s ≡ (err x, s'))
      × (confirm_no_error w i s' ≡ (err parsing_error, s'))
confirm_no_error-IsBroken w i o s x b h =
    let (s', first, at) = first_fault w i o s b x (parse_object_broken w i o s b o.cls x h) in
    (s', first, confirm_again w i (broken_object o) s' at refl refl)
