-- ===== src/Swig/Entries/Safe.antt =====
-- What the functions of swig_doc.py that make entries return, if they return.
use sdrportal.Prelude.{
  ◌≡◌, false, refl, Text, codes, Option, none, some, List, [], ◌∷◌, ◌++◌, inl, inr, All, Bool-cases,
}
use sdrportal.Exc.{Result, ok, err, no_such_member, Good}
use sdrportal.Str.{join, has_infix}
use sdrportal.Doxy.State.{ObjId, World, ◌>>=◌, lift, pure, instances}
use sdrportal.Doxy.Classes.{doxy_function, doxy_file}
use sdrportal.Doxy.Lookup.{in_category}
use sdrportal.Swig.Names.{make_name}
use sdrportal.Doxy.Parsing.{described}
use sdrportal.Doxy.Parsing
use sdrportal.Swig.Text.{entry_of, blank_line, unless_empty, operator_word, params_suffix}
use sdrportal.Quote.{is_ascii}
use sdrportal.Swig.Text.Laws.{
  escaped, IsSafe, append-IsSafe, combine_texts-IsSafe, params_suffix-IsSafe,
}
use sdrportal.Swig.Entries.{
  encoded_entry, combine_descriptions, make_entry, make_func_entry, class_loop, make_class_entry,
  file_description, make_block_entry, no_file_of_name, description_or, text_value, name_or,
  params_or, some_member, declnames, no_blocks, params_of, member_named,
}
use sdrportal.Swig.Entries.Pieces.{
  Ensures, bind-Ensures, then-Ensures, pure-Ensures, IsEntry, Entries, entry, join-Entries,
  entry_of-IsEntry,
}

no_text-IsSafe : IsSafe []
unfolding is_ascii escaped
no_text-IsSafe = (refl, refl)

join-IsSafe : (ts : List Text) → All IsSafe ts → IsSafe (join blank_line ts)
unfolding join is_ascii escaped
join-IsSafe [] h = no_text-IsSafe
join-IsSafe (t ∷ []) (h, k) = h
join-IsSafe (t ∷ u ∷ ts) (h, k) =
    append-IsSafe t (blank_line ++ join blank_line (u ∷ ts)) h
      (append-IsSafe blank_line (join blank_line (u ∷ ts)) (refl, refl) (join-IsSafe (u ∷ ts) k))

unless_empty-IsSafe :
    (t : Text) (ts : List Text) → IsSafe t → All IsSafe ts → All IsSafe (unless_empty t ts)
unless_empty-IsSafe [] ts h k = k
unless_empty-IsSafe (c ∷ t) ts h k = (h, k)

module _ (w : World) where
  encoded_entry-Good_ascii : (n t : Text) → IsEntry t → Good IsEntry (encoded_entry w n t)
  encoded_entry-Good_ascii n [] h = inl refl
  encoded_entry-Good_ascii n (c ∷ t) h = elim (Bool-cases (is_ascii n)) [
    | inl e ↦ rw e h
    | inr e ↦ rw e tt
  ]

  encoded_entry-Good_other : (n t : Text) → is_ascii n ≡ false → Good IsEntry (encoded_entry w n t)
  encoded_entry-Good_other n [] e = inl refl
  encoded_entry-Good_other n (c ∷ t) e = rw e tt

  combine_descriptions-IsSafe : (obj : ObjId) → Ensures IsSafe (combine_descriptions w obj)
  unfolding combine_descriptions
  combine_descriptions-IsSafe obj = then-Ensures IsSafe (described w obj) _ (λ b.
      then-Ensures IsSafe (lift (text_value w b.brief_description)) _ (λ brief.
        then-Ensures IsSafe (described w obj) _ (λ d.
          then-Ensures IsSafe (lift (text_value w d.detailed_description)) _
            (λ detailed. pure-Ensures IsSafe _ (combine_texts-IsSafe brief detailed)))))

  -- A description that is given is one of these texts.
  abbrev SafeOption : Option Text → Type 0
  SafeOption none = Unit
  SafeOption (some d) = IsSafe d

  description_or-IsSafe :
      (d : Option Text) (obj : ObjId) → SafeOption d → Ensures IsSafe (description_or w d obj)
  description_or-IsSafe none obj h = combine_descriptions-IsSafe obj
  description_or-IsSafe (some d) obj h = pure-Ensures IsSafe d h

  encoded_entry-Good :
      (n suffix d : Text)
      → IsSafe suffix
      → IsSafe d
      → Good IsEntry (encoded_entry w n (entry_of n suffix d))
  encoded_entry-Good n suffix d h k = elim (Bool-cases (is_ascii n)) [
    | inl e ↦ encoded_entry-Good_ascii n (entry_of n suffix d) (entry_of-IsEntry n suffix d e h k)
    | inr e ↦ encoded_entry-Good_other n (entry_of n suffix d) e
  ]

  make_entry-IsEntry :
      (obj : ObjId) (name : Option Text) (suffix : Text) (description : Option Text)
      → IsSafe suffix
      → SafeOption description
      → Ensures IsEntry (make_entry w obj name suffix description)
  unfolding make_entry
  make_entry-IsEntry obj name suffix description h k =
      then-Ensures IsEntry (name_or w name obj) _ (λ n.
        elim (Bool-cases (has_infix operator_word n)) [
          | inl e ↦ rw e (pure-Ensures IsEntry [] (inl refl))
          | inr e ↦ rw e (
              bind-Ensures IsSafe IsEntry (description_or w description obj) _
                (description_or-IsSafe description obj k)
                (λ d safe. record { good = λ s. encoded_entry-Good n suffix d h safe }))
        ])

  pub make_func_entry-IsEntry :
      (func : ObjId) (name : Option Text) (description : Option Text) (params : Option (List ObjId))
      → SafeOption description
      → Ensures IsEntry (make_func_entry w func name description params)
  unfolding make_func_entry
  make_func_entry-IsEntry func name description params h =
      then-Ensures IsEntry (params_or w params func) _ (λ ps.
        then-Ensures IsEntry (declnames w ps) _ (λ ns.
          make_entry-IsEntry func name (params_suffix ns) description (params_suffix-IsSafe ns) h))

  class_loop-Entries :
      (klass : ObjId) (fs : List (Option ObjId)) → Ensures (All Entries) (class_loop w klass fs)
  unfolding class_loop
  class_loop-Entries klass [] = pure-Ensures (All Entries) [] tt
  class_loop-Entries klass (f ∷ fs) = then-Ensures (All Entries) (Parsing.name w klass) _ (λ own.
      then-Ensures (All Entries) (lift (some_member w f)) _ (λ func.
        then-Ensures (All Entries) (Parsing.name w func) _ (λ n.
          bind-Ensures IsEntry (All Entries)
            (make_func_entry w func (some (own ++ (codes "::" ++ n))) none none) _
            (make_func_entry-IsEntry func (some (own ++ (codes "::" ++ n))) none none tt)
            (λ t is.
              bind-Ensures (All Entries) (All Entries) (class_loop w klass fs) _
                (class_loop-Entries klass fs)
                (λ ts are. pure-Ensures (All Entries) (t ∷ ts) (entry is, are))))))

  pub make_class_entry-Entries :
      (klass : ObjId) (description : Option Text)
      → SafeOption description
      → Ensures Entries (make_class_entry w klass description)
  unfolding make_class_entry
  make_class_entry-Entries klass description h =
      bind-Ensures IsEntry Entries (make_entry w klass none [] description) _
        (make_entry-IsEntry klass none [] description no_text-IsSafe h)
        (λ t is.
          then-Ensures Entries (in_category w no_blocks klass (instances doxy_function)) _ (λ funcs.
            bind-Ensures (All Entries) Entries (class_loop w klass funcs) _
              (class_loop-Entries klass funcs)
              (λ ts are. pure-Ensures Entries _ (join-Entries t ts (entry is) are))))

  no_file_of_name-Good : (r : Result Text) → Good IsSafe r → Good IsSafe (no_file_of_name w r)
  no_file_of_name-Good (ok t) h = h
  no_file_of_name-Good (err no_such_member) h = no_text-IsSafe
  no_file_of_name-Good (err _) h = tt

  file_description-IsSafe : (di block : ObjId) → Ensures IsSafe (file_description w di block)
  unfolding file_description
  file_description-IsSafe di block =
      let found : Ensures IsSafe (do
        n ← Parsing.name w block
        block_file ← member_named w di (n ++ codes ".h") doxy_file
        combine_descriptions w block_file) =
        then-Ensures IsSafe (Parsing.name w block) _ (λ n.
          then-Ensures IsSafe (member_named w di (n ++ codes ".h") doxy_file) _
            (λ block_file. combine_descriptions-IsSafe block_file)) in
      record { good = λ s. no_file_of_name-Good _ (found.good s) }

  -- The end of `make_block_entry`, from the description on.
  block_end-Entries :
      (block make_func : ObjId) (d : Text)
      → IsSafe d
      → Ensures Entries (do
        class_entry ← make_class_entry w block (some d)
        creator_name ← Parsing.name w block
        creator ← member_named w block creator_name doxy_function
        creator_params ← params_of w creator
        func_entry ← make_func_entry w make_func none (some d) (some creator_params)
        pure (join blank_line (class_entry ∷ func_entry ∷ [])))
  block_end-Entries block make_func d h =
      bind-Ensures Entries Entries (make_class_entry w block (some d)) _
        (make_class_entry-Entries block (some d) h)
        (λ class_entry are. then-Ensures Entries (Parsing.name w block) _ (λ creator_name.
          then-Ensures Entries (member_named w block creator_name doxy_function) _ (λ creator.
            then-Ensures Entries (params_of w creator) _ (λ params.
              bind-Ensures IsEntry Entries (make_func_entry w make_func none (some d) (some params))
                _ (make_func_entry-IsEntry make_func none (some d) (some params) h)
                (λ func_entry is.
                  pure-Ensures Entries _
                    (join-Entries class_entry (func_entry ∷ []) are (entry is, tt)))))))

  pub make_block_entry-Entries : (di block : ObjId) → Ensures Entries (make_block_entry w di block)
  unfolding make_block_entry
  make_block_entry-Entries di block =
      bind-Ensures IsSafe Entries (combine_descriptions w block) _
        (combine_descriptions-IsSafe block)
        (λ class_desc h1. then-Ensures Entries (Parsing.name w block) _ (λ n.
          then-Ensures Entries (member_named w di (make_name n) doxy_function) _ (λ make_func.
            bind-Ensures IsSafe Entries (combine_descriptions w make_func) _
              (combine_descriptions-IsSafe make_func)
              (λ make_func_desc h2.
                bind-Ensures IsSafe Entries (file_description w di block) _
                  (file_description-IsSafe di block)
                  (λ file_desc h3. block_end-Entries block make_func _ (
                    join-IsSafe _ (
                      unless_empty-IsSafe class_desc _ h1 (
                        unless_empty-IsSafe make_func_desc _ h2
                          (unless_empty-IsSafe file_desc [] h3 tt)))))))))
