-- ===== src/Classical/Round.antt =====
-- The state and the end of a round in host_server/baseline_server.py, whose class
-- ClassicalProtocolBridge aggregates in two steps.
use dropout.Prelude.{ℕ, List}
use dropout.Prelude.Int.{ℤ}
use dropout.Prelude.Dict.{Dict}
use dropout.Prelude.Exec.{Result, Exec}
use dropout.Bytes.{Bytes}
use dropout.Platform.{Platform, KeyExchange}
use dropout.Bridge.State
use dropout.Bridge.State.{round_complete}
use dropout.Bridge.Fedavg
use dropout.Bridge.Telemetry
use dropout.Bridge.Round
use dropout.Incoming.Round as Incoming
use dropout.Classical.Keys.{classical}

abbrev pub ClientState : Type 0
ClientState = State.ClientState

abbrev pub RoundState : Type 0
RoundState = State.RoundState

abbrev pub ClassicalProtocolBridge : Type 0
ClassicalProtocolBridge = State.ProtocolBridge

abbrev pub Session : Type 0
Session = State.Session

abbrev pub collect_telemetry : RoundState → Result Telemetry.Telemetry
collect_telemetry = Telemetry.collect_telemetry

abbrev pub pack_telemetry : Telemetry.Telemetry → Result Bytes
pack_telemetry = Telemetry.pack_telemetry

abbrev pub compute_fedavg : RoundState → Dict (Dict (List ℤ)) → Result (Dict (List ℕ))
compute_fedavg = Fedavg.compute_fedavg

module _ (x : KeyExchange) (platform : Platform) where
  abbrev pub trigger_recovery : Exec Session Unit
  trigger_recovery = Round.trigger_recovery (classical x platform)

  abbrev pub unmask_client_chunks : RoundState → Result (Dict (Dict (List ℤ)))
  unmask_client_chunks = Fedavg.unmask_client_chunks (classical x platform)

  abbrev pub unmask_and_aggregate : Exec Session Unit
  unmask_and_aggregate = Incoming.unmask_and_aggregate (classical x platform)

  abbrev pub handle_round_failure : Exec Session Unit
  handle_round_failure = Round.handle_round_failure (classical x platform)

  abbrev pub check_round_completion : Exec Session Unit → Exec Session Unit
  check_round_completion = Round.check_round_completion (classical x platform)
