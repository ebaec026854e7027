-- ===== src/Receiver/Checks.antt =====
-- When a flow graph is wired well, and tests that decide it.
use text.Mathlib.Text.{◌==◌ as str_eq}
use mathlib.Core.Bool.{false≢true}
use sdrportal.Prelude.{
  sym, text_eq, text_eq→eq, Bool-cases, inl, inr, length, ltb, if◌then◌else◌, ℕ, zero, suc, ◌*◌,
  ◌<◌, ◌≡◌, refl, String, Option, none, some, List, [], ◌∷◌, Bool, true, false, ◌&&◌, ◌==◌, ltb,
  All, arith, if◌then◌else◌, length, ap, map, ◌++◌,
}
use sdrportal.Receiver.Graph.{Floats, Block, FlowGraph, find_block}
use sdrportal.Receiver.Signature.{
  Item, char, short, float, complex, Change, decimates, resamples, recovers, Signature,
}

abbrev pub Edge : Type 0
Edge = (String × ℕ) × (String × ℕ)

-- The input ports of a block that connections lead to, in the order of the connections.
abbrev pub ports_into : String → List Edge → List ℕ
ports_into name [] = []
ports_into name ((p, (n, port)) ∷ es) =
    let rest = ports_into name es in if str_eq n name then port ∷ rest else rest

-- start, start + 1, …, with `count` numbers
abbrev pub range : ℕ → ℕ → List ℕ
range start zero = []
range start (suc count) = start ∷ range (suc start) count

-- The entry of a table, or a default.
abbrev pub lookup_or {ℓ} : {A : Type ℓ} → A → String → List (String × A) → A
lookup_or d name [] = d
lookup_or d name ((n, a) ∷ rest) = if str_eq n name then a else lookup_or d name rest

abbrev item_eq : Item → Item → Bool
item_eq char char = true
item_eq short short = true
item_eq float float = true
item_eq complex complex = true
item_eq _ _ = false

item_eq→eq : (i j : Item) → item_eq i j ≡ true → i ≡ j
item_eq→eq i j h = ground arith

abbrev passes {ℓ} : {A : Type ℓ} → (A → Bool) → List A → Bool
passes p [] = true
passes p (x ∷ xs) = p x && passes p xs

passes_sound {ℓ κ} :
    {A : Type ℓ} (P : A → Type κ) (p : A → Bool)
    → ((x : A) → p x ≡ true → P x)
    → (xs : List A) → passes p xs ≡ true
    → All P xs
passes_sound P p sound [] h = tt
passes_sound P p sound (x ∷ xs) h = elim (Bool-cases (p x)) [
  | inl e ↦ (sound x e, passes_sound P p sound xs (rw (e) at h))
  | inr e ↦ absurd (false≢true (rw (e) at h))
]

All-both {ℓ κ ι} :
    {A : Type ℓ} (P : A → Type κ) (Q : A → Type ι) (xs : List A)
    → All P xs
    → All Q xs
    → All (λ x. P x × Q x) xs
All-both P Q [] h k = tt
All-both P Q (x ∷ xs) (h, hs) (k, ks) = ((h, k), All-both P Q xs hs ks)

abbrev head_or {ℓ} : {A : Type ℓ} → A → List A → A
head_or d [] = d
head_or d (x ∷ xs) = x

abbrev tail {ℓ} : {A : Type ℓ} → List A → List A
tail [] = []
tail (x ∷ xs) = xs

-- Two functions that agree on a whole list agree on each of its members.
All-map_eq {ℓ κ} :
    {A : Type ℓ} {B : Type κ} (f k : A → B) (d : B) (xs : List A)
    → map f xs ≡ map k xs
    → All (λ x. f x ≡ k x) xs
All-map_eq f k d [] e = tt
All-map_eq f k d (x ∷ xs) e = (ap (head_or d) e, All-map_eq f k d xs (ap tail e))

module _ (fl : Floats) where
  -- The rate of a stream: one item for so many bytes of the source, times interpolation over
  -- decimation for each resampling, and then so many recoveries of symbols.
  pub record Rate : Type 0 where
    pub bytes : ℕ
    pub resampled : List (ℕ × fl.Int)
    pub recovered : ℕ

  abbrev pub rate_after : Option (Change fl) → Rate → Option Rate
  rate_after none r = none
  rate_after (some (decimates d)) r = some (record r { bytes = r.bytes * d })
  rate_after (some (resamples interp decim)) r =
      some (record r { resampled = r.resampled ++ (interp, decim) ∷ [] })
  rate_after (some recovers) r = some (record r { recovered = suc r.recovered })

module _ (fl : Floats) (sig : Signature fl) (g : FlowGraph fl) where
  abbrev pub output_of : String → Option Item
  output_of name = elim (find_block fl name g.blocks) [ none ↦ none | some b ↦ sig.output b ]

  abbrev pub input_of : String → Option Item
  input_of name = elim (find_block fl name g.blocks) [ none ↦ none | some b ↦ sig.input b ]

  abbrev pub change_of : String → Option (Change fl)
  change_of name = elim (find_block fl name g.blocks) [ none ↦ none | some b ↦ some (sig.change b) ]

  -- A connection leads from port 0 of a block with an output to a block whose inputs take the same
  -- item.
  abbrev pub EdgeFits : Edge → Type 0
  EdgeFits ((a, m), (b, n)) =
      (m ≡ 0) × ((i : Item) × (output_of a ≡ some i) × (input_of b ≡ some i))

  -- The connections into a block lead to its ports 0, 1, … once each, as many as it runs with.
  abbrev pub BlockFed : String × Block fl → Type 0
  BlockFed (name, b) = (n : ℕ) × (ports_into name g.edges ≡ range 0 n) × (sig.accepts b n ≡ true)

  -- `rank` grows along the connection, and the block that it leads to changes the rate of what comes
  -- in to its own.
  abbrev pub EdgeOrdered : (String → ℕ) → (String → Rate fl) → Edge → Type 0
  EdgeOrdered rank rate ((a, m), (b, n)) =
      (rank a < rank b) × (rate_after fl (change_of b) (rate a) ≡ some (rate b))

  pub record IsWired : Type 0 where
    pub fits : All EdgeFits g.edges
    pub fed : All BlockFed g.blocks

  abbrev fits_test : Option Item → Option Item → Bool
  fits_test none j = false
  fits_test (some i) none = false
  fits_test (some i) (some j) = item_eq i j

  fits_test_sound :
      (x y : Option Item) → fits_test x y ≡ true → (i : Item) × (x ≡ some i) × (y ≡ some i)
  fits_test_sound none y h = cc
  fits_test_sound (some i) none h = cc
  fits_test_sound (some i) (some j) h = (i, refl, ap some (sym (item_eq→eq i j h)))

  edge_test : Edge → Bool
  unfolding text_eq
  edge_test ((a, m), (b, n)) = (m == 0) && fits_test (output_of a) (input_of b)

  edge_test_sound : (e : Edge) → edge_test e ≡ true → EdgeFits e
  unfolding edge_test
  edge_test_sound ((a, m), (b, n)) h =
      (ground arith, fits_test_sound (output_of a) (input_of b) (ground arith))

  block_test : String × Block fl → Bool
  block_test (name, b) =
      let ports = ports_into name g.edges in
      text_eq ports (range 0 (length ports)) && sig.accepts b (length ports)

  block_test_sound : (x : String × Block fl) → block_test x ≡ true → BlockFed x
  unfolding block_test
  block_test_sound (name, b) h =
      let ports = ports_into name g.edges in
      (length ports, text_eq→eq ports (range 0 (length ports)) (ground arith), ground arith)

  unfoldable pub wired_test : Bool
  unfolding edge_test block_test text_eq
  wired_test = passes edge_test g.edges && passes block_test g.blocks

  pub wired_test_sound : wired_test ≡ true → IsWired
  unfolding wired_test
  wired_test_sound h = record {
    fits = passes_sound EdgeFits edge_test edge_test_sound g.edges (ground arith);
    fed = passes_sound BlockFed block_test block_test_sound g.blocks (ground arith);
  }

  rank_test : (String → ℕ) → Edge → Bool
  rank_test rank ((a, m), (b, n)) = ltb (rank a) (rank b)

  rank_test_sound :
      (rank : String → ℕ) (e : Edge) → rank_test rank e ≡ true → rank e.0.0 < rank e.1.0
  unfolding rank_test
  rank_test_sound rank ((a, m), (b, n)) h = ground arith

  unfoldable pub ranks_test : (String → ℕ) → Bool
  unfolding rank_test
  ranks_test rank = passes (rank_test rank) g.edges

  -- What comes in along a connection, changed, and the rate of the block that it leads to.
  abbrev pub incoming : (String → Rate fl) → Edge → Option (Rate fl)
  incoming rate ((a, m), (b, n)) = rate_after fl (change_of b) (rate a)

  abbrev pub own_rate : (String → Rate fl) → Edge → Option (Rate fl)
  own_rate rate ((a, m), (b, n)) = some (rate b)

  pub EdgeOrdered-tables :
      (rank : String → ℕ) (rate : String → Rate fl)
      → ranks_test rank ≡ true
      → map (incoming rate) g.edges ≡ map (own_rate rate) g.edges
      → All (EdgeOrdered rank rate) g.edges
  unfolding ranks_test
  EdgeOrdered-tables rank rate ranks rates =
      All-both _ _ g.edges
        (passes_sound (λ e. rank e.0.0 < rank e.1.0) (rank_test rank) (rank_test_sound rank) g.edges
          ranks)
        (All-map_eq (incoming rate) (own_rate rate) none g.edges rates)
