-- ===== src/Receiver/Programs.antt =====
-- The constructors of the three receivers, from the parsed command line on.
use sdrportal.Prelude.{String, Option, none, some, List, [], ◌∷◌, true}
use sdrportal.Exc.{Result, ok, err, system_exit}
use sdrportal.Receiver.Graph.{
  Floats, file_sink, float_to_complex, ws_sink_c, FlowGraph, add_block, connect, empty_graph, port0,
  ◌▸◌,
}
use sdrportal.Receiver.Sections.{
  source_section, demod_section, filter_section, baseband_section, stereo_section, audio_section,
  rds_section,
}

module _ (fl : Floats) where
  open fl use {F, Int, lit}

  -- `options`, after `parser.parse_args()`. The websocket receivers alone have `wsportnum`.
  pub record Options : Type 0 where
    pub hostname : String
    pub portnum : Option Int
    pub wsportnum : Option Int
    pub sdr_rate : F
    pub volume : Option F
    pub audio_output : String

  -- `self.vol`
  abbrev pub volume_or_default : Option F → F
  volume_or_default none = lit 1 1
  volume_or_default (some v) = v

  -- sdrp_rds_rx.py: the log of the received bytes.
  unfoldable pub logger_section : FlowGraph fl → FlowGraph fl
  logger_section g =
      g
      ▸ add_block fl "logger" (file_sink 1 "log.out")
      ▸ connect fl (port0 "sdr_source") (port0 "logger" ∷ [])

  -- sdrp_rds_rx.py: both channels and the demodulated signal go to files.
  unfoldable pub file_section : FlowGraph fl → FlowGraph fl
  file_section g =
      g
      ▸ add_block fl "file_sink1" (file_sink 4 "audioL.dat")
      ▸ add_block fl "file_sink2" (file_sink 4 "audioR.dat")
      ▸ add_block fl "file_sink3" (file_sink 4 "fmDemod.dat")
      ▸ connect fl (port0 "resamp_L") (port0 "file_sink1" ∷ [])
      ▸ connect fl (port0 "resamp_R") (port0 "file_sink2" ∷ [])
      ▸ connect fl (port0 "fm_demod") (port0 "file_sink3" ∷ [])

  -- sdrp_rds_rx_ws.py: both channels interleaved into one websocket; `module_name` makes the sink.
  unfoldable pub websocket_section : String → Option Int → FlowGraph fl → FlowGraph fl
  websocket_section module_name wsportnum g =
      g
      ▸ add_block fl "audio_interleaver" (float_to_complex 1)
      ▸ connect fl (port0 "resamp_L") (("audio_interleaver", 0) ∷ [])
      ▸ connect fl (port0 "resamp_R") (("audio_interleaver", 1) ∷ [])
      ▸ add_block fl "ws_audio_server" (ws_sink_c module_name true wsportnum "FLOAT")
      ▸ connect fl (port0 "audio_interleaver") (port0 "ws_audio_server" ∷ [])

  -- The graph of sdrp_rds_rx.py.
  unfoldable pub rx_graph : Options → FlowGraph fl
  unfolding source_section demod_section filter_section baseband_section stereo_section
      audio_section rds_section logger_section file_section
  rx_graph o =
      empty_graph fl
      ▸ source_section fl o.hostname o.portnum
      ▸ logger_section
      ▸ demod_section fl o.sdr_rate
      ▸ filter_section fl o.sdr_rate
      ▸ baseband_section fl
      ▸ stereo_section fl o.sdr_rate
      ▸ audio_section fl (volume_or_default o.volume) o.sdr_rate
      ▸ file_section
      ▸ rds_section fl o.sdr_rate

  -- The graph of gr-sdrp/python/sdrp_rds_rx_ws.py: no log, and the left channel to a file as well.
  unfoldable pub rx_ws_graph : Options → FlowGraph fl
  unfolding source_section demod_section filter_section baseband_section stereo_section
      audio_section rds_section websocket_section
  rx_ws_graph o =
      empty_graph fl
      ▸ source_section fl o.hostname o.portnum
      ▸ demod_section fl o.sdr_rate
      ▸ filter_section fl o.sdr_rate
      ▸ baseband_section fl
      ▸ stereo_section fl o.sdr_rate
      ▸ audio_section fl (volume_or_default o.volume) o.sdr_rate
      ▸ add_block fl "file_sink1" (file_sink 4 "audioL.dat")
      ▸ connect fl (port0 "resamp_L") (port0 "file_sink1" ∷ [])
      ▸ websocket_section "sdrp" o.wsportnum
      ▸ rds_section fl o.sdr_rate

  -- The graph of gr-sdrportal/python/sdrp_rds_rx_ws.py: the log, and no file.
  unfoldable pub portal_rx_ws_graph : Options → FlowGraph fl
  unfolding source_section demod_section filter_section baseband_section stereo_section
      audio_section rds_section logger_section websocket_section
  portal_rx_ws_graph o =
      empty_graph fl
      ▸ source_section fl o.hostname o.portnum
      ▸ logger_section
      ▸ demod_section fl o.sdr_rate
      ▸ filter_section fl o.sdr_rate
      ▸ baseband_section fl
      ▸ stereo_section fl o.sdr_rate
      ▸ audio_section fl (volume_or_default o.volume) o.sdr_rate
      ▸ websocket_section "sdrportal" o.wsportnum
      ▸ rds_section fl o.sdr_rate

  -- The start of each constructor: positional arguments end the program with status 1 (the only
  -- status that the programs exit with) before a block is made.
  unfoldable pub construct :
      (Options → FlowGraph fl) → Options → List String → Result (FlowGraph fl)
  construct graph o [] = ok (graph o)
  construct graph o (a ∷ args) = err system_exit
