-- ===== src/Bindings/Constructors/Lost.antt =====
-- What the subclasses of compound.py lose: the constructors of those with mixed content pass two
-- arguments on by position, which are not the first two.
use sdrportal.Prelude.{
  ℕ, zero, suc, ◌≤◌, ◌≡◌, refl, Text, Option, none, some, List, [], ◌∷◌, Bool, true, false, ◌&&◌,
  ◌||◌, leb, length, text_eq, not, arith,
}
use sdrportal.Exc.{ok}
use sdrportal.Bindings.Classes.{Class}
use sdrportal.Bindings.Schema.{Shape, structured, valued, mixed, valued_mixed, paragraph}
use sdrportal.Bindings.Tables.{schema}
use sdrportal.Bindings.Value.{Value}
use sdrportal.Bindings.Constructors.{
  Parameter, Sub, SuperParameter, bind, argument, arguments, sub_init,
}
use sdrportal.Bindings.Constructors.Factory.{factory, init_of}
use sdrportal.Bindings.Subs.{subclass}

abbrev pub keeps_content : Shape → Bool
keeps_content structured = false
keeps_content valued = false
keeps_content mixed = true
keeps_content valued_mixed = true
keeps_content paragraph = true

-- There are that many parameters, and the name is none of the first ones.
avoids : Text → ℕ → List Parameter → Bool
avoids k zero ps = true
avoids k (suc n) [] = false
avoids k (suc n) (p ∷ ps) = not (text_eq p.name k) && avoids k n ps

all_avoid : List Text → ℕ → List Parameter → Bool
all_avoid [] n ps = leb n (length ps)
all_avoid (k ∷ ks) n ps = avoids k n ps && all_avoid ks n ps

passes_later : Option Sub → ℕ → Bool
passes_later none n = leb n 0
passes_later (some s) n = all_avoid s.passed n s.parameters

bind_defaults : (ps : List Parameter) → (env : List (Text × Value)) × (bind ps [] ≡ ok env)
unfolding bind
bind_defaults [] = ([], refl)
bind_defaults (p ∷ ps) = let (env, e) = bind_defaults ps in ((p.name, p.default) ∷ env, rw e refl)

-- The arguments as they are bound with the first ones given, and with none given.
record Bound (ps : List Parameter) (vs : List Value) (n : ℕ) : Type 0 where
  given : List (Text × Value)
  defaults : List (Text × Value)
  binds : bind ps vs ≡ ok given
  binds_none : bind ps [] ≡ ok defaults
  same : (k : Text) → avoids k n ps ≡ true → argument k given ≡ argument k defaults

bound : (ps : List Parameter) (vs : List Value) → length vs ≤ length ps → Bound ps vs (length vs)
unfolding bind avoids argument
bound ps [] h =
    let (env, e) = bind_defaults ps in
    record { given = env; defaults = env; binds = e; binds_none = e; same = λ k a. refl }
bound [] (v ∷ vs) h = absurd (omega arith)
bound (p ∷ ps) (v ∷ vs) h =
    let rest = bound ps vs (omega arith) in
    record {
      given = (p.name, v) ∷ rest.given;
      defaults = (p.name, p.default) ∷ rest.defaults;
      binds = rw rest.binds refl;
      binds_none = rw rest.binds_none refl;
      same = λ k a. ground (arith, rest.same k);
    }

arguments_same :
    (ks : List Text) (ps : List Parameter) (vs : List Value) (b : Bound ps vs (length vs))
    → all_avoid ks (length vs) ps ≡ true
    → arguments ks b.given ≡ arguments ks b.defaults
unfolding arguments all_avoid
arguments_same [] ps vs b h = refl
arguments_same (k ∷ ks) ps vs b h =
    let first : argument k b.given ≡ argument k b.defaults = b.same k (ground arith) in
    let rest : arguments ks b.given ≡ arguments ks b.defaults =
      arguments_same ks ps vs b (ground arith) in
    rw (first, rest) refl

all_avoid-le :
    (ks : List Text) (n : ℕ) (ps : List Parameter) → all_avoid ks n ps ≡ true → n ≤ length ps
unfolding all_avoid
all_avoid-le [] n ps h = ground arith
all_avoid-le (k ∷ ks) n ps h = all_avoid-le ks n ps (ground arith)

sub_init-loses :
    (s : Sub) (ps : List SuperParameter) (vs : List Value)
    → all_avoid s.passed (length vs) s.parameters ≡ true
    → sub_init s ps vs ≡ sub_init s ps []
unfolding sub_init
sub_init-loses s ps vs h =
    let b = bound s.parameters vs (all_avoid-le s.passed (length vs) s.parameters h) in
    rw (b.binds, b.binds_none, arguments_same s.passed s.parameters vs b h) refl

init_of-loses :
    (o : Option Sub) (ps : List SuperParameter) (vs : List Value)
    → passes_later o (length vs) ≡ true
    → init_of o ps vs ≡ init_of o ps []
unfolding passes_later
init_of-loses none ps [] h = refl
init_of-loses none ps (v ∷ vs) h = absurd (ground arith)
init_of-loses (some s) ps vs h = sub_init-loses s ps vs h

-- Every class with mixed content passes on only parameters that come after those for its attributes.
table :
    (c : Class)
    → (not (keeps_content (schema c).shape)
        || passes_later (subclass c) (length (schema c).attributes))
      ≡ true
unfolding passes_later all_avoid avoids schema subclass text_eq
table Class.doxygen_type = refl
table _ = refl

-- An object of a class with mixed content takes no attribute from its constructor: `factory`, called
-- with a value for each attribute, gives the same as `factory` called without arguments.
pub factory-loses :
    (c : Class) (vs : List Value)
    → keeps_content (schema c).shape ≡ true
    → length vs ≡ length (schema c).attributes
    → factory c vs ≡ factory c []
unfolding factory
factory-loses c vs mixed_content count =
    let later : passes_later (subclass c) (length (schema c).attributes) ≡ true =
      ground (arith, table c) in
    rw (init_of-loses (subclass c) _ vs (rw count later)) refl
