-- ===== src/Swig/File/Safe.antt =====
-- The text of the interface file.
use sdrportal.Prelude.{
  ◌≡◌, Text, codes, Option, none, some, List, [], ◌∷◌, ◌++◌, All, All-append, append_assoc,
  append-nil, sym, ap, subst,
}
use sdrportal.Exc.{Result, ok, err, parsing_error, Good}
use sdrportal.Str.{join}
use sdrportal.Doxy.State.{ObjId, World, M, ◌>>=◌, lift, pure, instances, blocks, raise, print_line}
use sdrportal.Doxy.Classes.{doxy_function, doxy_class}
use sdrportal.Doxy.Lookup.{in_category, get_member}
use sdrportal.Doxy.Parsing.{name}
use sdrportal.Swig.Names.{make_name}
use sdrportal.Swig.Text.{blank_line}
use sdrportal.Swig.Entries.{
  no_blocks, block_includes, make_func_entry, make_class_entry, make_block_entry,
}
use sdrportal.Swig.Entries.Pieces.{
  Ensures, bind-Ensures, then-Ensures, pure-Ensures, IsEntry, Entries, entry,
}
use sdrportal.Swig.Entries.Safe.{
  make_func_entry-IsEntry, make_class_entry-Entries, make_block_entry-Entries,
}
use sdrportal.Swig.File.{
  banner, custom, handle, attempt, member_of, Progress, noted, block_round, blocks_loop, unnamed,
  entries_loop, names_of, make_swig_interface_file, start, main,
}

-- The pieces of the text: some given ones, and then entries.
abbrev pub Shaped : List Text → List Text → Type 0
Shaped front out = (es : List Text) × (out ≡ front ++ es) × All Entries es

append-Shaped :
    (front out new : List Text) → Shaped front out → All Entries new → Shaped front (out ++ new)
append-Shaped front out new (es, split, are) h =
    (es ++ new, rw split (append_assoc front es new), All-append Entries es new are h)

module _ (w : World) where
  handle-Entries :
      (what : Text) (i : ObjId) (r : Result Text)
      → Good Entries r
      → Ensures (All Entries) (handle w what i r)
  handle-Entries what i (ok t) h = pure-Ensures (All Entries) (t ∷ []) (h, tt)
  handle-Entries what i (err parsing_error) h = then-Ensures (All Entries) (name w i) _ (λ n.
      then-Ensures (All Entries)
        (print_line (codes "Parsing error for " ++ (what ++ (codes " " ++ n)))) _
        (λ u. pure-Ensures (All Entries) [] tt))
  handle-Entries what i (err _) h = record { good = λ s. tt }

  attempt-Entries :
      (what : Text) (i : ObjId) (m : M Text)
      → Ensures Entries m
      → Ensures (All Entries) (attempt w what i m)
  unfolding attempt
  attempt-Entries what i m h = record {
    good = λ s. (handle-Entries what i (m s).0 (h.good s)).good (m s).1;
  }

  noted-Shaped :
      (di block : ObjId) (front : List Text) (p : Progress w) (r : Result Text)
      → Shaped front p.output
      → Ensures (λ q. Shaped front q.output) (noted w di block p r)
  noted-Shaped di block front p (ok n) h =
      bind-Ensures (All Entries) (λ q. Shaped front q.output)
        (attempt w (codes "block") block (make_block_entry w di block)) _
        (attempt-Entries (codes "block") block (make_block_entry w di block)
          (make_block_entry-Entries w di block))
        (λ new are.
          pure-Ensures (λ q. Shaped front q.output) _ (append-Shaped front p.output new h are))
  noted-Shaped di block front p (err e) h =
      bind-Ensures (All Entries) (λ q. Shaped front q.output)
        (attempt w (codes "block") block (raise e)) _
        (attempt-Entries (codes "block") block (raise e) (record { good = λ s. tt }))
        (λ new are.
          pure-Ensures (λ q. Shaped front q.output) _ (append-Shaped front p.output new h are))

  block_round-Shaped :
      (di block : ObjId) (front : List Text) (p : Progress w)
      → Shaped front p.output
      → Ensures (λ q. Shaped front q.output) (block_round w di block p)
  unfolding block_round
  block_round-Shaped di block front p h =
      let searched : M Text = (do
        n ← name w block
        make_func ← get_member w no_blocks di (make_name n) (instances doxy_function)
        name w make_func) in
      record { good = λ s. (noted-Shaped di block front p (searched s).0 h).good (searched s).1 }

  blocks_loop-Shaped :
      (di : ObjId) (bs : List (Option ObjId)) (front : List Text) (p : Progress w)
      → Shaped front p.output
      → Ensures (λ q. Shaped front q.output) (blocks_loop w di bs p)
  unfolding blocks_loop
  blocks_loop-Shaped di [] front p h = pure-Ensures (λ q. Shaped front q.output) p h
  blocks_loop-Shaped di (b ∷ bs) front p h =
      then-Ensures (λ q. Shaped front q.output) (lift (member_of w b)) _
        (λ block.
          bind-Ensures (λ q. Shaped front q.output) (λ q. Shaped front q.output)
            (block_round w di block p) _ (block_round-Shaped di block front p h)
            (λ q k. blocks_loop-Shaped di bs front q k))

  entries_loop-Entries :
      (what : Text) (make : ObjId → M Text) (is : List ObjId)
      → ((i : ObjId) → Ensures Entries (make i))
      → Ensures (All Entries) (entries_loop w what make is)
  unfolding entries_loop
  entries_loop-Entries what make [] h = pure-Ensures (All Entries) [] tt
  entries_loop-Entries what make (i ∷ is) h =
      bind-Ensures (All Entries) (All Entries) (attempt w what i (make i)) _
        (attempt-Entries what i (make i) (h i))
        (λ first are.
          bind-Ensures (All Entries) (All Entries) (entries_loop w what make is) _
            (entries_loop-Entries what make is h)
            (λ rest so. pure-Ensures (All Entries) _ (All-append Entries first rest are so)))

  entry-Good : (r : Result Text) → Good IsEntry r → Good Entries r
  entry-Good (ok t) h = entry h
  entry-Good (err e) h = tt

  function-Entries : (f : ObjId) → Ensures Entries (make_func_entry w f none none none)
  function-Entries f =
      let made = make_func_entry-IsEntry w f none none none tt in
      record { good = λ s. entry-Good _ (made.good s) }

  -- A text that the pieces make: some given ones, and then entries.
  abbrev pub IsFile : List Text → Text → Type 0
  IsFile front t = (es : List Text) × (t ≡ join blank_line (front ++ es)) × All Entries es

  -- The end of `make_swig_interface_file`, once all entries are made.
  joined-IsFile :
      (front out fs cs : List Text)
      → Shaped front out
      → All Entries fs
      → All Entries cs
      → IsFile front (join blank_line (out ++ (fs ++ cs)))
  joined-IsFile front out fs cs h are so =
      let (es, split, all) =
        append-Shaped front out (fs ++ cs) h (All-append Entries fs cs are so) in
      (es, ap (join blank_line) split, all)

  -- The part of `make_swig_interface_file` after the loop over blocks.
  without_block-IsFile :
      (di : ObjId) (found : List (Option ObjId)) (front : List Text) (done : Progress w)
      → Shaped front done.output
      → Ensures (IsFile front) (do
        functions ← in_category w (block_includes w) di (instances doxy_function)
        funcs ← unnamed w done.make_funcs functions
        func_entries ←
            entries_loop w (codes "function") (λ f. make_func_entry w f none none none) funcs
        block_names ← names_of w found
        classes ← in_category w (block_includes w) di (instances doxy_class)
        klasses ← unnamed w block_names classes
        class_entries ← entries_loop w (codes "class") (λ k. make_class_entry w k none) klasses
        pure (join blank_line (done.output ++ (func_entries ++ class_entries))))
  without_block-IsFile di found front done shaped =
      let file = IsFile front in
      then-Ensures file (in_category w (block_includes w) di (instances doxy_function)) _
        (λ functions. then-Ensures file (unnamed w done.make_funcs functions) _ (λ funcs.
          bind-Ensures (All Entries) file
            (entries_loop w (codes "function") (λ f. make_func_entry w f none none none) funcs) _
            (entries_loop-Entries (codes "function") _ funcs function-Entries)
            (λ fs are. then-Ensures file (names_of w found) _ (λ block_names.
              then-Ensures file (in_category w (block_includes w) di (instances doxy_class)) _
                (λ classes. then-Ensures file (unnamed w block_names classes) _ (λ klasses.
                  bind-Ensures (All Entries) file
                    (entries_loop w (codes "class") (λ k. make_class_entry w k none) klasses) _
                    (entries_loop-Entries (codes "class") _ klasses
                      (λ k. make_class_entry-Entries w k none tt))
                    (λ cs so.
                      pure-Ensures file _
                        (joined-IsFile front done.output fs cs shaped are so))))))))

  make_swig_interface_file-IsFile :
      (di : ObjId) (c : Option Text)
      → Ensures (IsFile (banner ∷ custom w c)) (make_swig_interface_file w di c)
  unfolding make_swig_interface_file
  make_swig_interface_file-IsFile di c =
      let front = banner ∷ custom w c in
      let file = IsFile front in
      then-Ensures file (in_category w (block_includes w) di blocks) _ (λ found.
        bind-Ensures (λ q. Shaped front q.output) file
          (blocks_loop w di found (record { make_funcs = []; output = front })) _
          (blocks_loop-Shaped di found front _ ([], sym (append-nil front), tt))
          (λ done shaped. without_block-IsFile di found front done shaped))

ok-Good : {A : Type 0} (P : A → Type 0) (r : Result A) (a : A) → Good P r → r ≡ ok a → P a
ok-Good P r a h e = subst (Good P) e h

-- Whatever `swig_doc.py XML_PATH FILE` returns to write, in any library of XML files, is the
-- banner, an empty custom text and then entries, with a blank line between
-- each piece and the next. An entry is empty or a directive `%feature("docstring") NAME "DOC"` where NAME
-- and DOC are ASCII and each quote in DOC stands directly behind a backslash.
pub main-IsFile :
    (w : World) (program xml_path file t : Text)
    → main w (program ∷ xml_path ∷ file ∷ []) ≡ ok t
    → IsFile w (banner ∷ [] ∷ []) t
unfolding main
main-IsFile w program xml_path file t e =
    ok-Good _ _ t ((make_swig_interface_file-IsFile w 0 (some [])).good (start w xml_path)) e
