-- ===== src/Receiver/Tests.antt =====
-- The receivers with some options, over numbers that stand for the interpreter's, and blocks that
-- behave as documented.
use sdrportal.Prelude.{ℕ, zero, suc, ◌+◌, ◌-◌, ◌*◌, ◌/◌, refl, none, some}
use sdrportal.Receiver.Graph.{Floats}
use sdrportal.Receiver.Programs.{Options, rx_graph, rx_ws_graph, portal_rx_ws_graph}
use sdrportal.Receiver.Signature.{IsDocumented, documented}
use sdrportal.Receiver.Checks.{IsWired}
use sdrportal.Receiver.Wiring.{IsOrdered, receivers-IsWired, receivers-IsOrdered}

abbrev ten_to : ℕ → ℕ
ten_to zero = 1
ten_to (suc n) = 10 * ten_to n

-- Numbers in units of a millionth, cut off at 0.
abbrev micros : Floats
micros = record {
  F = ℕ;
  Int = ℕ;
  lit = λ n k. n * 1000000 / ten_to k;
  pi = 3141592;
  add = λ a b. a + b;
  sub = λ a b. a - b;
  mul = λ a b. a * b / 1000000;
  div = λ a b. a * 1000000 / b;
  neg = λ a. a;
  int = λ a. a / 1000000;
}

abbrev local_options : Options micros
local_options = record {
  hostname = "localhost";
  portnum = some 2345;
  wsportnum = some 18000;
  sdr_rate = 250000000000;
  volume = none;
  audio_output = "";
}

documented-IsDocumented : IsDocumented micros (documented micros)
documented-IsDocumented = record {
  input_as = λ b. refl;
  output_as = λ b. refl;
  accepts_as = λ b n. refl;
  change_as = λ b. refl;
}

receivers-IsWired_example :
    IsWired micros (documented micros) (rx_graph micros local_options)
    × IsWired micros (documented micros) (rx_ws_graph micros local_options)
    × IsWired micros (documented micros) (portal_rx_ws_graph micros local_options)
receivers-IsWired_example =
    receivers-IsWired micros local_options (documented micros) documented-IsDocumented

receivers-IsOrdered_example :
    IsOrdered micros (rx_graph micros local_options) (documented micros)
    × IsOrdered micros (rx_ws_graph micros local_options) (documented micros)
    × IsOrdered micros (portal_rx_ws_graph micros local_options) (documented micros)
receivers-IsOrdered_example =
    receivers-IsOrdered micros local_options (documented micros) documented-IsDocumented
