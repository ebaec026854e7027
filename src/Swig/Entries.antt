-- ===== src/Swig/Entries.antt =====
-- The entries of the interface file: `Block.includes`, `combine_descriptions`, `make_entry`,
-- `make_func_entry`, `make_class_entry` and `make_block_entry` of swig_doc.py.
pub mod Pieces
pub mod Safe
use sdrportal.Prelude.{
  if◌then◌else◌, Text, codes, Option, none, some, List, [], ◌∷◌, ◌++◌, Bool, true, false,
}
use sdrportal.Exc.{no_such_member, attribute_error, unicode_error, key_error, Result, ok, err}
use sdrportal.Str.{join, has_infix}
use sdrportal.Quote.{is_ascii}
use sdrportal.Doxy.Classes.{Cls, doxy_class, doxy_friend, doxy_function, doxy_file, is_subclass}
use sdrportal.Doxy.State.{ObjId, World, instances, M, ◌>>=◌, pure, lift, read}
use sdrportal.Doxy.Parsing.{error, name, described}
use sdrportal.Doxy.Lookup.{in_category, get_member, has_member}
use sdrportal.Swig.Names.{make_name}
use sdrportal.Swig.Text.{
  blank_line, unless_empty, combine_texts, entry_of, params_suffix, operator_word,
}

-- A category of classes asks nothing of `Block`.
abbrev pub no_blocks : Option ObjId → M Bool
no_blocks mem = pure false

module _ (w : World) where
  abbrev pub member_named : ObjId → Text → Cls → M ObjId
  member_named self n c = get_member w no_blocks self n (instances c)

  abbrev includes_parsed : ObjId → Bool → M Bool
  includes_parsed i true = pure false
  includes_parsed i false = do
    n ← name w i
    has_member w no_blocks i (make_name n) (instances doxy_friend)

  abbrev includes_class : Bool → ObjId → M Bool
  includes_class false i = pure false
  includes_class true i = do bad ← error w i; includes_parsed i bad

  -- `Block.includes(item)`
  unfoldable pub block_includes : Option ObjId → M Bool
  unfolding error name has_member make_name ◌>>=◌
  block_includes none = pure false
  block_includes (some i) = do o ← read i; includes_class (is_subclass o.cls doxy_class) i

  -- `obj.brief_description.strip()`: the key of `_data` is there and its value is a text.
  abbrev pub text_value : Option (Option Text) → Result Text
  text_value (some (some t)) = ok t
  text_value (some none) = err attribute_error
  text_value none = err key_error

  -- `combine_descriptions(obj)`
  unfoldable pub combine_descriptions : ObjId → M Text
  unfolding described combine_texts ◌>>=◌
  combine_descriptions obj = do
    b ← described w obj
    brief ← lift (text_value b.brief_description)
    d ← described w obj
    detailed ← lift (text_value d.detailed_description)
    pure (combine_texts brief detailed)

  abbrev pub name_or : Option Text → ObjId → M Text
  name_or (some n) obj = pure n
  name_or none obj = name w obj

  abbrev pub description_or : Option Text → ObjId → M Text
  description_or (some d) obj = pure d
  description_or none obj = combine_descriptions obj

  -- What `entry_templ.format` returns: the template is a str, so that a name is encoded in ASCII.
  abbrev pub encoded_entry : Text → Text → Result Text
  encoded_entry name [] = ok []
  encoded_entry name (c ∷ entry) = if is_ascii name then ok (c ∷ entry) else err unicode_error

  -- `make_entry(obj, name, templ, description)`
  unfoldable pub make_entry : ObjId → Option Text → Text → Option Text → M Text
  unfolding combine_descriptions entry_of has_infix is_ascii name ◌>>=◌
  make_entry obj name suffix description = do
    n ← name_or name obj
    elim (has_infix operator_word n) [
      | true ↦ pure []
      | false ↦ (do
        d ← description_or description obj
        lift (encoded_entry n (entry_of n suffix d)))
    ]

  abbrev listed_params : Option (List ObjId) → Result (List ObjId)
  listed_params none = err key_error
  listed_params (some ps) = ok ps

  abbrev declname_value : Option Text → Result Text
  declname_value none = err key_error
  declname_value (some n) = ok n

  -- `func.params`
  unfoldable pub params_of : ObjId → M (List ObjId)
  unfolding described ◌>>=◌
  params_of func = do d ← described w func; lift (listed_params d.params)

  -- `[prm.declname for prm in params]`
  unfoldable pub declnames : List ObjId → M (List Text)
  unfolding described ◌>>=◌
  declnames [] = pure []
  declnames (p ∷ ps) = do
    d ← described w p
    n ← lift (declname_value d.declname)
    ns ← declnames ps
    pure (n ∷ ns)

  abbrev pub params_or : Option (List ObjId) → ObjId → M (List ObjId)
  params_or (some ps) func = pure ps
  params_or none func = params_of func

  -- `make_func_entry(func, name, description, params)`
  unfoldable pub make_func_entry : ObjId → Option Text → Option Text → Option (List ObjId) → M Text
  unfolding params_of declnames make_entry params_suffix
  make_func_entry func name description params = do
    ps ← params_or params func
    ns ← declnames ps
    make_entry func name (params_suffix ns) description

  abbrev pub some_member : Option ObjId → Result ObjId
  some_member none = err attribute_error
  some_member (some i) = ok i

  -- The loop of `make_class_entry`.
  unfoldable pub class_loop : ObjId → List (Option ObjId) → M (List Text)
  unfolding make_func_entry name ◌>>=◌
  class_loop klass [] = pure []
  class_loop klass (f ∷ fs) = do
    own ← name w klass
    func ← lift (some_member f)
    n ← name w func
    entry ← make_func_entry func (some (own ++ (codes "::" ++ n))) none none
    rest ← class_loop klass fs
    pure (entry ∷ rest)

  -- `make_class_entry(klass, description)`
  unfoldable pub make_class_entry : ObjId → Option Text → M Text
  unfolding make_entry class_loop in_category join
  make_class_entry klass description = do
    entry ← make_entry klass none [] description
    funcs ← in_category w no_blocks klass (instances doxy_function)
    entries ← class_loop klass funcs
    pure (join blank_line (entry ∷ entries))

  abbrev pub no_file_of_name : Result Text → Result Text
  no_file_of_name (ok t) = ok t
  no_file_of_name (err no_such_member) = ok []
  no_file_of_name (err e) = err e

  -- The description of the block's header; NoSuchMember is passed over.
  unfoldable pub file_description : ObjId → ObjId → M Text
  unfolding get_member combine_descriptions name ◌>>=◌
  file_description di block s =
      let (r, s') =
        (do
          n ← name w block
          block_file ← member_named di (n ++ codes ".h") doxy_file
          combine_descriptions block_file)
          s in
      (no_file_of_name r, s')

  -- `make_block_entry(di, block)`
  unfoldable pub make_block_entry : ObjId → ObjId → M Text
  unfolding combine_descriptions get_member file_description make_class_entry make_func_entry
      make_name name join
  make_block_entry di block = do
    class_desc ← combine_descriptions block
    n ← name w block
    make_func ← member_named di (make_name n) doxy_function
    make_func_desc ← combine_descriptions make_func
    file_desc ← file_description di block
    let descriptions =
        unless_empty class_desc (unless_empty make_func_desc (unless_empty file_desc []))
    let super_description = join blank_line descriptions
    class_entry ← make_class_entry block (some super_description)
    creator_name ← name w block
    creator ← member_named block creator_name doxy_function
    creator_params ← params_of creator
    func_entry ← make_func_entry make_func none (some super_description) (some creator_params)
    pure (join blank_line (class_entry ∷ func_entry ∷ []))
