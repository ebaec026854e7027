-- ===== src/Receiver/Signature.antt =====
-- What the receivers rely on of the blocks, which GNU Radio, gr-rds and the websocket sink implement:
-- the items and the number of their streams, and the rate at which they write.
use text.Mathlib.Text.{◌==◌ as str_eq}
use sdrportal.Prelude.{if◌then◌else◌, ℕ, ◌≡◌, Option, none, some, Bool, ◌&&◌, ◌==◌, leb}
use sdrportal.Receiver.Graph.{
  Floats, Block, tcp_source, file_sink, char_to_short, interleaved_short_to_complex, fir_filter_ccf,
  fir_filter_fff, pll_freqdet_cf, multiply_ff, add_ff, sub_ff, float_to_complex, ws_sink_c,
  rational_resampler_fff, bpsk_demod, diff_decoder_bb, data_decoder,
}

pub data Item : Type 0 where
  char short float complex : Item

module _ (fl : Floats) where
  -- The rate of a block's output against that of its inputs: one item for each so many, an
  -- interpolation over a decimation, or one item for each symbol that it recovers.
  pub data Change : Type 0 where
    decimates : ℕ → Change
    resamples : ℕ → fl.Int → Change
    recovers : Change

  -- The item of each input, if the block has inputs; the item of the output, if it has one; the
  -- numbers of inputs that it runs with; the rate of its output.
  pub record Signature : Type 0 where
    pub input : Block fl → Option Item
    pub output : Block fl → Option Item
    pub accepts : Block fl → ℕ → Bool
    pub change : Block fl → Change

  abbrev item_of_size : ℕ → Option Item
  item_of_size n =
      if n == 1
      then some char
      else if n == 2
      then some short
      else if n == 4
      then some float
      else none

  abbrev pub documented_input : Block fl → Option Item
  documented_input (tcp_source size addr port server) = none
  documented_input (file_sink size name) = item_of_size size
  documented_input (char_to_short vlen) = some char
  documented_input interleaved_short_to_complex = some short
  documented_input (fir_filter_ccf decim taps) = some complex
  documented_input (fir_filter_fff decim taps) = some float
  documented_input (pll_freqdet_cf bw hi lo alpha beta) = some complex
  documented_input (float_to_complex vlen) = some float
  documented_input (ws_sink_c m server port format) = some complex
  documented_input (diff_decoder_bb modulus) = some char
  documented_input data_decoder = some char
  documented_input _ = some float

  abbrev pub documented_output : Block fl → Option Item
  documented_output (tcp_source size addr port server) = item_of_size size
  documented_output (file_sink size name) = none
  documented_output (char_to_short vlen) = some short
  documented_output interleaved_short_to_complex = some complex
  documented_output (fir_filter_ccf decim taps) = some complex
  documented_output (float_to_complex vlen) = some complex
  documented_output (ws_sink_c m server port format) = none
  documented_output (bpsk_demod rate) = some char
  documented_output (diff_decoder_bb modulus) = some char
  documented_output data_decoder = none
  documented_output _ = some float

  -- `ws_sink_c` of gr-sdrp declares at most one input, that of gr-sdrportal exactly one.
  abbrev pub documented_accepts : Block fl → ℕ → Bool
  documented_accepts (tcp_source size addr port server) n = n == 0
  documented_accepts multiply_ff n = leb 1 n
  documented_accepts add_ff n = leb 1 n
  documented_accepts sub_ff n = leb 1 n
  documented_accepts (float_to_complex vlen) n = leb 1 n && leb n 2
  documented_accepts (ws_sink_c m server port format) n =
      if str_eq m "sdrp" then leb n 1 else n == 1
  documented_accepts (bpsk_demod rate) n = n == 2
  documented_accepts (file_sink size name) n = n == 1
  documented_accepts _ n = n == 1

  abbrev pub documented_change : Block fl → Change
  documented_change interleaved_short_to_complex = decimates 2
  documented_change (fir_filter_ccf decim taps) = decimates decim
  documented_change (fir_filter_fff decim taps) = decimates decim
  documented_change (rational_resampler_fff interp decim) = resamples interp decim
  documented_change (bpsk_demod rate) = recovers
  documented_change _ = decimates 1

  abbrev pub documented : Signature
  documented = record {
    input = documented_input;
    output = documented_output;
    accepts = documented_accepts;
    change = documented_change;
  }

  -- The blocks behave as documented.
  pub record IsDocumented (sig : Signature) : Type 0 where
    pub input_as : (b : Block fl) → sig.input b ≡ documented_input b
    pub output_as : (b : Block fl) → sig.output b ≡ documented_output b
    pub accepts_as : (b : Block fl) (n : ℕ) → sig.accepts b n ≡ documented_accepts b n
    pub change_as : (b : Block fl) → sig.change b ≡ documented_change b

  pub IsDocumented-eq : (sig : Signature) → IsDocumented sig → sig ≡ documented
  IsDocumented-eq sig h = λ i. record {
    input = λ b. h.input_as b i;
    output = λ b. h.output_as b i;
    accepts = λ b n. h.accepts_as b n i;
    change = λ b. h.change_as b i;
  }
