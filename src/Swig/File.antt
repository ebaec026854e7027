-- ===== src/Swig/File.antt =====
-- `make_swig_interface_file` of swig_doc.py: the text of the file, which is then written out, and the
-- program's start.
pub mod Safe
use sdrportal.Prelude.{Text, codes, Option, none, some, List, [], ◌∷◌, ◌++◌, if◌then◌else◌}
use sdrportal.Exc.{parsing_error, standard_error, attribute_error, Result, ok, err}
use sdrportal.Str.{join}
use sdrportal.Doxy.Classes.{doxy_class, doxy_function, doxy_index}
use sdrportal.Doxy.Objects.{new_object, contains_name}
use sdrportal.Doxy.State.{
  ObjId, World, State, directory, instances, blocks, M, ◌>>=◌, ◌>>◌, pure, raise, lift, print_line,
}
use sdrportal.Doxy.Parsing.{name}
use sdrportal.Doxy.Lookup.{in_category, get_member}
use sdrportal.Swig.Names.{make_name}
use sdrportal.Swig.Text.{blank_line}
use sdrportal.Swig.Entries.{
  no_blocks, block_includes, make_func_entry, make_class_entry, make_block_entry,
}

abbrev pub banner : Text
banner =
    codes
      "\n/*\n * This file was automatically generated using swig_doc.py.\n *\n * Any changes to it will be lost next time it is regenerated.\n */\n"

module _ (w : World) where
  -- `try … except ParsingError: print(…)`: the entry, or nothing and a printed line.
  abbrev pub handle : Text → ObjId → Result Text → M (List Text)
  handle what i (ok t) = pure (t ∷ [])
  handle what i (err parsing_error) = do
    n ← name w i
    print_line (codes "Parsing error for " ++ (what ++ (codes " " ++ n)))
    pure []
  handle what i (err e) = raise e

  unfoldable pub attempt : Text → ObjId → M Text → M (List Text)
  unfolding name ◌>>=◌
  attempt what i m s = let (r, s') = m s in handle what i r s'

  abbrev pub member_of : Option ObjId → Result ObjId
  member_of none = err attribute_error
  member_of (some i) = ok i

  -- The names that `blocks` reported and the entries made for them.
  pub record Progress : Type 0 where
    pub make_funcs : List Text
    pub output : List Text

  -- The rest of a block's round, once the make function's name is known or its search has raised.
  abbrev pub noted : ObjId → ObjId → Progress → Result Text → M Progress
  noted di block p (ok n) = do
    entry ← attempt (codes "block") block (make_block_entry w di block)
    pure (record { make_funcs = n ∷ p.make_funcs; output = p.output ++ entry })
  noted di block p (err e) = do
    entry ← attempt (codes "block") block (raise e)
    pure (record p { output = p.output ++ entry })

  -- What one block adds: the name of its make function is noted also if the entry then fails.
  unfoldable pub block_round : ObjId → ObjId → Progress → M Progress
  unfolding attempt get_member make_name make_block_entry
  block_round di block p s =
      let (r, s1) =
        (do
          n ← name w block
          make_func ← get_member w no_blocks di (make_name n) (instances doxy_function)
          name w make_func)
          s in
      noted di block p r s1

  unfoldable pub blocks_loop : ObjId → List (Option ObjId) → Progress → M Progress
  unfolding block_round
  blocks_loop di [] p = pure p
  blocks_loop di (b ∷ bs) p = do
    block ← lift (member_of b)
    p' ← block_round di block p
    blocks_loop di bs p'

  -- `[f for f in members if f.name() not in names]`
  unfoldable pub unnamed : List Text → List (Option ObjId) → M (List ObjId)
  unfolding name contains_name ◌>>=◌
  unnamed names [] = pure []
  unnamed names (f ∷ fs) = do
    i ← lift (member_of f)
    n ← name w i
    rest ← unnamed names fs
    pure (if contains_name n names then rest else i ∷ rest)

  -- The loops over functions and over classes.
  unfoldable pub entries_loop : Text → (ObjId → M Text) → List ObjId → M (List Text)
  unfolding attempt
  entries_loop what make [] = pure []
  entries_loop what make (i ∷ is) = do
    entry ← attempt what i (make i)
    rest ← entries_loop what make is
    pure (entry ++ rest)

  unfoldable pub names_of : List (Option ObjId) → M (List Text)
  unfolding name ◌>>=◌
  names_of [] = pure []
  names_of (b ∷ bs) = do i ← lift (member_of b); n ← name w i; ns ← names_of bs; pure (n ∷ ns)

  abbrev pub custom : Option Text → List Text
  custom none = []
  custom (some t) = t ∷ []

  -- `make_swig_interface_file(di, …, custom_output)`: the text that it writes.
  unfoldable pub make_swig_interface_file : ObjId → Option Text → M Text
  unfolding in_category blocks_loop unnamed entries_loop names_of make_func_entry make_class_entry
      block_includes join
  make_swig_interface_file di custom_output = do
    found ← in_category w (block_includes w) di blocks
    done ← blocks_loop di found (record { make_funcs = []; output = banner ∷ custom custom_output })
    functions ← in_category w (block_includes w) di (instances doxy_function)
    funcs ← unnamed done.make_funcs functions
    func_entries ← entries_loop (codes "function") (λ f. make_func_entry w f none none none) funcs
    block_names ← names_of found
    classes ← in_category w (block_includes w) di (instances doxy_class)
    klasses ← unnamed block_names classes
    class_entries ← entries_loop (codes "class") (λ k. make_class_entry w k none) klasses
    pure (join blank_line (done.output ++ (func_entries ++ class_entries)))

  abbrev pub start : Text → State
  start path = record {
    heap = new_object doxy_index (some (directory path)) ∷ [];
    refs = [];
    xml_path = path;
    printed = [];
  }

  -- The program's start: two arguments, the directory and the file to write, and the name of the
  -- program before them.
  unfoldable pub main : List Text → Result Text
  unfolding make_swig_interface_file
  main (program ∷ xml_path ∷ file ∷ []) =
      let (r, s) = make_swig_interface_file 0 (some []) (start xml_path) in r
  main _ = err (standard_error (codes "Execute using: python swig_doc.py xml_path outputfilename"))
