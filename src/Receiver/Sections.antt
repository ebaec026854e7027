-- ===== src/Receiver/Sections.antt =====
-- The parts of the constructors that the receivers share, in the order of the text of
-- gr-sdrp/python/sdrp_rds_rx.py. Each part adds its blocks and connections to the graph.
use sdrportal.Prelude.{ℕ, String, Option, [], ◌∷◌, false}
use sdrportal.Receiver.Graph.{
  Floats, low_pass, band_pass, tcp_source, char_to_short, interleaved_short_to_complex,
  fir_filter_ccf, fir_filter_fff, pll_freqdet_cf, multiply_ff, add_ff, sub_ff, multiply_const_ff,
  rational_resampler_fff, freq_divider, bpsk_demod, diff_decoder_bb, data_decoder, FlowGraph,
  add_block, connect, port0, ◌▸◌,
}

abbrev pub audio_decim : ℕ
audio_decim = 8

module _ (fl : Floats) where
  open fl use {F, Int, lit, pi, add, sub, mul, div, neg, int}

  -- `int(sdr_rate/audio_decim)`
  abbrev pub audio_rate : F → Int
  audio_rate sdr_rate = int (div sdr_rate (lit audio_decim 0))

  -- The connection to the generic SDR, and the blocks that turn its bytes into complex samples.
  unfoldable pub source_section : String → Option Int → FlowGraph fl → FlowGraph fl
  source_section hostname portnum g =
      g
      ▸ add_block fl "interleaved_short_to_complex" interleaved_short_to_complex
      ▸ add_block fl "char_to_short" (char_to_short 1)
      ▸ add_block fl "sdr_source" (tcp_source 1 hostname portnum false)

  -- `fm_alpha`, `fm_beta` and `fm_max_freq` of the demodulator.
  abbrev pub fm_alpha : F → F
  fm_alpha sdr_rate = div (mul (mul (lit 25 2) (lit 250000 0)) pi) sdr_rate

  abbrev pub fm_beta : F → F
  fm_beta sdr_rate = div (mul (fm_alpha sdr_rate) (fm_alpha sdr_rate)) (lit 4 0)

  abbrev pub fm_max_freq : F → F
  fm_max_freq sdr_rate = div (mul (mul (lit 2 0) pi) (lit 90000 0)) sdr_rate

  -- The channel filter and the demodulator of wide band FM.
  unfoldable pub demod_section : F → FlowGraph fl → FlowGraph fl
  demod_section sdr_rate g =
      g
      ▸ add_block fl "chan_filter"
          (fir_filter_ccf 1 (low_pass (lit 1 0) sdr_rate (lit 80000 0) (lit 35000 0)))
      ▸ add_block fl "fm_demod" (
          pll_freqdet_cf (lit 1 0) (fm_max_freq sdr_rate) (neg (fm_max_freq sdr_rate))
            (fm_alpha sdr_rate) (fm_beta sdr_rate))
      ▸ connect fl (port0 "sdr_source") (port0 "char_to_short" ∷ [])
      ▸ connect fl (port0 "char_to_short") (port0 "interleaved_short_to_complex" ∷ [])
      ▸ connect fl (port0 "interleaved_short_to_complex")
          (port0 "chan_filter" ∷ port0 "fm_demod" ∷ [])

  -- The filters for L+R, the pilot tone, L-R and RDS.
  unfoldable pub filter_section : F → FlowGraph fl → FlowGraph fl
  filter_section sdr_rate g =
      g
      ▸ add_block fl "lpr_filter"
          (fir_filter_fff audio_decim (low_pass (lit 1 0) sdr_rate (lit 15000 0) (lit 1000 0)))
      ▸ add_block fl "pilot_filter" (
          fir_filter_fff 1 (
            band_pass (lit 1 0) sdr_rate (sub (lit 19000 0) (lit 500 0))
              (add (lit 19000 0) (lit 500 0)) (lit 1000 0)))
      ▸ add_block fl "dsbsc_filter" (
          fir_filter_fff 1 (
            band_pass (lit 1 0) sdr_rate (sub (lit 38000 0) (div (lit 15000 0) (lit 2 0)))
              (add (lit 38000 0) (div (lit 15000 0) (lit 2 0))) (lit 1000 0)))
      ▸ add_block fl "rds_filter" (
          fir_filter_fff 1 (
            band_pass (lit 1 0) sdr_rate (sub (lit 57000 0) (lit 3000 0))
              (add (lit 57000 0) (lit 3000 0)) (lit 3000 0)))
      ▸ connect fl (port0 "fm_demod") (port0 "lpr_filter" ∷ [])
      ▸ connect fl (port0 "fm_demod") (port0 "pilot_filter" ∷ [])
      ▸ connect fl (port0 "fm_demod") (port0 "dsbsc_filter" ∷ [])
      ▸ connect fl (port0 "fm_demod") (port0 "rds_filter" ∷ [])

  -- The products with the pilot that bring L-R and RDS to the baseband.
  unfoldable pub baseband_section : FlowGraph fl → FlowGraph fl
  baseband_section g =
      g
      ▸ add_block fl "stereo_baseband" multiply_ff
      ▸ connect fl (port0 "pilot_filter") (("stereo_baseband", 0) ∷ [])
      ▸ connect fl (port0 "pilot_filter") (("stereo_baseband", 1) ∷ [])
      ▸ connect fl (port0 "dsbsc_filter") (("stereo_baseband", 2) ∷ [])
      ▸ add_block fl "rds_baseband" multiply_ff
      ▸ connect fl (port0 "pilot_filter") (("rds_baseband", 0) ∷ [])
      ▸ connect fl (port0 "pilot_filter") (("rds_baseband", 1) ∷ [])
      ▸ connect fl (port0 "pilot_filter") (("rds_baseband", 2) ∷ [])
      ▸ connect fl (port0 "rds_filter") (("rds_baseband", 3) ∷ [])

  -- L-R at the audio rate, and the left and right channels.
  unfoldable pub stereo_section : F → FlowGraph fl → FlowGraph fl
  stereo_section sdr_rate g =
      g
      ▸ add_block fl "lmr_filter"
          (fir_filter_fff audio_decim (low_pass (lit 1 0) sdr_rate (lit 15000 0) (lit 1000 0)))
      ▸ connect fl (port0 "stereo_baseband") (port0 "lmr_filter" ∷ [])
      ▸ add_block fl "left" add_ff
      ▸ add_block fl "right" sub_ff
      ▸ connect fl (port0 "lpr_filter") (("left", 0) ∷ [])
      ▸ connect fl (port0 "lmr_filter") (("left", 1) ∷ [])
      ▸ connect fl (port0 "lpr_filter") (("right", 0) ∷ [])
      ▸ connect fl (port0 "lmr_filter") (("right", 1) ∷ [])

  -- Volume, and the resamplers to 48 kHz.
  unfoldable pub audio_section : F → F → FlowGraph fl → FlowGraph fl
  audio_section vol sdr_rate g =
      g
      ▸ add_block fl "volume_control_l" (multiply_const_ff vol)
      ▸ add_block fl "volume_control_r" (multiply_const_ff vol)
      ▸ add_block fl "resamp_L" (rational_resampler_fff 48000 (audio_rate sdr_rate))
      ▸ add_block fl "resamp_R" (rational_resampler_fff 48000 (audio_rate sdr_rate))
      ▸ connect fl (port0 "left") (port0 "volume_control_l" ∷ port0 "resamp_L" ∷ [])
      ▸ connect fl (port0 "right") (port0 "volume_control_r" ∷ port0 "resamp_R" ∷ [])

  -- The RDS baseband filter, the bit clock, and the decoder.
  unfoldable pub rds_section : F → FlowGraph fl → FlowGraph fl
  rds_section sdr_rate g =
      g
      ▸ add_block fl "rds_bb_filter"
          (fir_filter_fff audio_decim (low_pass (lit 1 0) sdr_rate (lit 1500 0) (lit 2000 0)))
      ▸ connect fl (port0 "rds_baseband") (port0 "rds_bb_filter" ∷ [])
      ▸ add_block fl "clock_divider" (freq_divider 16)
      ▸ add_block fl "rds_clock"
          (fir_filter_fff audio_decim (low_pass (lit 1 0) sdr_rate (lit 1200 0) (lit 1500 0)))
      ▸ connect fl (port0 "pilot_filter") (port0 "clock_divider" ∷ port0 "rds_clock" ∷ [])
      ▸ add_block fl "bpsk_demod" (bpsk_demod (audio_rate sdr_rate))
      ▸ add_block fl "differential_decoder" (diff_decoder_bb 2)
      ▸ add_block fl "rds_decoder" data_decoder
      ▸ connect fl (port0 "rds_bb_filter") (("bpsk_demod", 0) ∷ [])
      ▸ connect fl (port0 "rds_clock") (("bpsk_demod", 1) ∷ [])
      ▸ connect fl (port0 "bpsk_demod") (port0 "differential_decoder" ∷ [])
      ▸ connect fl (port0 "differential_decoder") (port0 "rds_decoder" ∷ [])
