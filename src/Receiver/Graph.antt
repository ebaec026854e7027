-- ===== src/Receiver/Graph.antt =====
-- Flow graphs: what a `gr.top_block` holds after calls of `self.connect`. The blocks themselves are
-- GNU Radio's; a block is the call that makes it, with its arguments.
use text.Mathlib.Text.{◌==◌ as str_eq}
use sdrportal.Prelude.{ℕ, String, Option, none, some, List, [], ◌∷◌, ◌++◌, Bool, if◌then◌else◌}

-- Python's floating point numbers and `int()`: the arithmetic of the interpreter. `lit n k` is the
-- literal n / 10^k.
pub record Floats : Type 1 where
  pub F : Type 0
  pub Int : Type 0
  pub lit : ℕ → ℕ → F
  pub pi : F
  pub add : F → F → F
  pub sub : F → F → F
  pub mul : F → F → F
  pub div : F → F → F
  pub neg : F → F
  pub int : F → Int

module _ (fl : Floats) where
  open fl use {F, Int}

  -- A call of `gr.firdes` with the Hamming window: gain, sampling rate, then frequencies in Hz.
  pub data Taps : Type 0 where
    low_pass : F → F → F → F → Taps
    band_pass : F → F → F → F → F → Taps

  pub data Block : Type 0 where
    tcp_source : ℕ → String → Option Int → Bool → Block
    file_sink : ℕ → String → Block
    char_to_short : ℕ → Block
    interleaved_short_to_complex : Block
    fir_filter_ccf : ℕ → Taps → Block
    fir_filter_fff : ℕ → Taps → Block
    -- the constructor's arguments, then those of `set_alpha` and `set_beta`
    pll_freqdet_cf : F → F → F → F → F → Block
    multiply_ff add_ff sub_ff : Block
    multiply_const_ff : F → Block
    rational_resampler_fff : ℕ → Int → Block
    float_to_complex : ℕ → Block
    -- the module that makes the block, then its arguments
    ws_sink_c : String → Bool → Option Int → String → Block
    freq_divider : ℕ → Block
    bpsk_demod : Int → Block
    diff_decoder_bb : ℕ → Block
    data_decoder : Block

  -- A block's name is the attribute that holds it; an endpoint is a block and a port.
  abbrev pub Endpoint : Type 0
  Endpoint = String × ℕ

  pub record FlowGraph : Type 0 where
    pub blocks : List (String × Block)
    pub edges : List (Endpoint × Endpoint)

  -- `self.name = block`
  abbrev pub add_block : String → Block → FlowGraph → FlowGraph
  add_block name b g = record g { blocks = g.blocks ++ (name, b) ∷ [] }

  abbrev pub links : Endpoint → List Endpoint → List (Endpoint × Endpoint)
  links p [] = []
  links p (q ∷ qs) = (p, q) ∷ links q qs

  -- `self.connect(p, q, ...)`: each endpoint to the next.
  abbrev pub connect : Endpoint → List Endpoint → FlowGraph → FlowGraph
  connect p qs g = record g { edges = g.edges ++ links p qs }

  abbrev pub empty_graph : FlowGraph
  empty_graph = record { blocks = []; edges = [] }

  abbrev pub find_block : String → List (String × Block) → Option Block
  find_block name [] = none
  find_block name ((n, b) ∷ bs) = if str_eq n name then some b else find_block name bs

-- An endpoint written as a block alone is its port 0.
abbrev pub port0 : String → String × ℕ
port0 name = (name, 0)

-- One statement after another.
infixl 10 ◌▸◌
abbrev pub ◌▸◌ {ℓ} : {A : Type ℓ} → A → (A → A) → A
g ▸ f = f g
