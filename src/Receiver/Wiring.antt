-- ===== src/Receiver/Wiring.antt =====
-- The wiring of the three receivers of gr-sdrp/python and gr-sdrportal/python.
use sdrportal.Prelude.{ℕ, ◌≡◌, refl, String, [], ◌∷◌, true, All, subst, sym, map}
use sdrportal.Receiver.Graph.{Floats, FlowGraph}
use sdrportal.Receiver.Programs.{Options, rx_graph, rx_ws_graph, portal_rx_ws_graph}
use sdrportal.Receiver.Sections.{audio_rate}
use sdrportal.Receiver.Signature.{Signature, IsDocumented, IsDocumented-eq, documented}
use sdrportal.Receiver.Checks.{
  Rate, IsWired, EdgeOrdered, lookup_or, wired_test, wired_test_sound, ranks_test, incoming,
  own_rate, EdgeOrdered-tables,
}

-- How far each block lies behind the source.
abbrev stage : String → ℕ
stage name = lookup_or 0 name (
    ("sdr_source", 0)
    ∷ ("logger", 1)
    ∷ ("char_to_short", 1)
    ∷ ("interleaved_short_to_complex", 2)
    ∷ ("chan_filter", 3)
    ∷ ("fm_demod", 4)
    ∷ ("lpr_filter", 5)
    ∷ ("pilot_filter", 5)
    ∷ ("dsbsc_filter", 5)
    ∷ ("rds_filter", 5)
    ∷ ("stereo_baseband", 6)
    ∷ ("rds_baseband", 6)
    ∷ ("lmr_filter", 7)
    ∷ ("left", 8)
    ∷ ("right", 8)
    ∷ ("volume_control_l", 9)
    ∷ ("volume_control_r", 9)
    ∷ ("resamp_L", 10)
    ∷ ("resamp_R", 10)
    ∷ ("file_sink1", 11)
    ∷ ("file_sink2", 11)
    ∷ ("file_sink3", 11)
    ∷ ("audio_interleaver", 11)
    ∷ ("ws_audio_server", 12)
    ∷ ("rds_bb_filter", 7)
    ∷ ("clock_divider", 6)
    ∷ ("rds_clock", 7)
    ∷ ("bpsk_demod", 8)
    ∷ ("differential_decoder", 9)
    ∷ ("rds_decoder", 10)
    ∷ [])

module _ (fl : Floats) (o : Options fl) where
  abbrev every : ℕ → Rate fl
  every n = record { bytes = n; resampled = []; recovered = 0 }

  -- The rate of the sound, and that of the RDS symbols.
  abbrev audio : Rate fl
  audio = record { bytes = 16; resampled = (48000, audio_rate fl o.sdr_rate) ∷ []; recovered = 0 }

  abbrev symbols : Rate fl
  symbols = record { bytes = 16; resampled = []; recovered = 1 }

  -- The rate of each block's output, or of what a sink takes.
  abbrev rates : String → Rate fl
  rates name = lookup_or (every 0) name (
      ("sdr_source", every 1)
      ∷ ("logger", every 1)
      ∷ ("char_to_short", every 1)
      ∷ ("interleaved_short_to_complex", every 2)
      ∷ ("chan_filter", every 2)
      ∷ ("fm_demod", every 2)
      ∷ ("lpr_filter", every 16)
      ∷ ("pilot_filter", every 2)
      ∷ ("dsbsc_filter", every 2)
      ∷ ("rds_filter", every 2)
      ∷ ("stereo_baseband", every 2)
      ∷ ("rds_baseband", every 2)
      ∷ ("lmr_filter", every 16)
      ∷ ("left", every 16)
      ∷ ("right", every 16)
      ∷ ("volume_control_l", every 16)
      ∷ ("volume_control_r", every 16)
      ∷ ("resamp_L", audio)
      ∷ ("resamp_R", audio)
      ∷ ("file_sink1", audio)
      ∷ ("file_sink2", audio)
      ∷ ("file_sink3", every 2)
      ∷ ("audio_interleaver", audio)
      ∷ ("ws_audio_server", audio)
      ∷ ("rds_bb_filter", every 16)
      ∷ ("clock_divider", every 2)
      ∷ ("rds_clock", every 16)
      ∷ ("bpsk_demod", symbols)
      ∷ ("differential_decoder", symbols)
      ∷ ("rds_decoder", symbols)
      ∷ [])

abbrev AllWired : (fl : Floats) → Options fl → Signature fl → Type 0
AllWired fl o sig =
    IsWired fl sig (rx_graph fl o)
    × IsWired fl sig (rx_ws_graph fl o)
    × IsWired fl sig (portal_rx_ws_graph fl o)

AllWired-documented : (fl : Floats) (o : Options fl) → AllWired fl o (documented fl)
unfolding rx_graph rx_ws_graph portal_rx_ws_graph wired_test
AllWired-documented fl o = (
  wired_test_sound fl (documented fl) (rx_graph fl o) refl,
  wired_test_sound fl (documented fl) (rx_ws_graph fl o) refl,
  wired_test_sound fl (documented fl) (portal_rx_ws_graph fl o) refl,
)

-- If the blocks behave as documented, then in each of the three receivers every connection joins an
-- output to an input of the same item type, and the connections into every block lead to its ports
-- 0, 1, … once each, as many as the block runs with, for all values of the options.
pub receivers-IsWired :
    (fl : Floats) (o : Options fl) (sig : Signature fl)
    → IsDocumented fl sig
    → IsWired fl sig (rx_graph fl o)
      × IsWired fl sig (rx_ws_graph fl o)
      × IsWired fl sig (portal_rx_ws_graph fl o)
receivers-IsWired fl o sig h =
    subst (AllWired fl o) (sym (IsDocumented-eq fl sig h)) (AllWired-documented fl o)

-- All connections of a graph are ordered by one rank and one table of rates, with the source's own
-- items at its own rate.
abbrev pub IsOrdered : (fl : Floats) → FlowGraph fl → Signature fl → Type 0
IsOrdered fl g sig =
    (rank : String → ℕ) × (rate : String → Rate fl) × All (EdgeOrdered fl sig g rank rate) g.edges
    × (rate "sdr_source" ≡ record { bytes = 1; resampled = []; recovered = 0 })

abbrev AllOrdered : (fl : Floats) → Options fl → Signature fl → Type 0
AllOrdered fl o sig =
    IsOrdered fl (rx_graph fl o) sig
    × IsOrdered fl (rx_ws_graph fl o) sig
    × IsOrdered fl (portal_rx_ws_graph fl o) sig

module _ (fl : Floats) (o : Options fl) (g : FlowGraph fl)
    (ranks : ranks_test fl (documented fl) g stage ≡ true)
    (agree : map (incoming fl (documented fl) g (rates fl o)) g.edges
      ≡ map (own_rate fl (documented fl) g (rates fl o)) g.edges) where
  IsOrdered-tables : IsOrdered fl g (documented fl)
  IsOrdered-tables = (
    stage,
    rates fl o,
    EdgeOrdered-tables fl (documented fl) g stage (rates fl o) ranks agree,
    refl,
  )

AllOrdered-documented : (fl : Floats) (o : Options fl) → AllOrdered fl o (documented fl)
unfolding rx_graph rx_ws_graph portal_rx_ws_graph ranks_test
AllOrdered-documented fl o = (
  IsOrdered-tables fl o (rx_graph fl o) refl refl,
  IsOrdered-tables fl o (rx_ws_graph fl o) refl refl,
  IsOrdered-tables fl o (portal_rx_ws_graph fl o) refl refl,
)

-- If the blocks behave as documented, each of the three receivers has no cycle and is consistent in
-- its rates, for all values of the options: a rank grows along every connection, and there is one rate
-- for each block, one item for a byte at the source, such that the block that a connection leads to
-- changes the rate of the block that it comes from to its own. So all inputs of a block come at one
-- rate, through the decimating filters, the resamplers and the recovery of symbols.
pub receivers-IsOrdered :
    (fl : Floats) (o : Options fl) (sig : Signature fl)
    → IsDocumented fl sig
    → IsOrdered fl (rx_graph fl o) sig
      × IsOrdered fl (rx_ws_graph fl o) sig
      × IsOrdered fl (portal_rx_ws_graph fl o) sig
receivers-IsOrdered fl o sig h =
    subst (AllOrdered fl o) (sym (IsDocumented-eq fl sig h)) (AllOrdered-documented fl o)
