-- ===== src/Incoming/Round.antt =====
-- The state and the end of a round on the lower side of the merge in host_server/protocol_bridge.py.
-- `_unmask_and_aggregate` aggregates in two steps here: `_unmask_client_chunks`, `_compute_fedavg`.
use dropout.Prelude.{ℕ, zero, suc, Bool, true, false, List, if◌then◌else◌}
use dropout.Prelude.Int.{ℤ}
use dropout.Prelude.Dict.{Dict, contains}
use dropout.Prelude.Exec.{Result, Exec, pure, lift, gets, modify, ◌>>=◌, ◌>>◌}
use dropout.Bytes.{Bytes}
use dropout.Platform.{Platform}
use dropout.Bridge.State
use dropout.Bridge.State.{round_complete}
use dropout.Bridge.Aggregate.{num_chunks_of}
use dropout.Bridge.Fedavg
use dropout.Bridge.Telemetry
use dropout.Bridge.Round.{publish}
use dropout.Bridge.Round
use dropout.Incoming.Keys.{setup_keys_and_masks}

abbrev pub ClientState : Type 0
ClientState = State.ClientState

abbrev pub RoundState : Type 0
RoundState = State.RoundState

abbrev pub ProtocolBridge : Type 0
ProtocolBridge = State.ProtocolBridge

abbrev pub Session : Type 0
Session = State.Session

abbrev pub collect_telemetry : RoundState → Result Telemetry.Telemetry
collect_telemetry = Telemetry.collect_telemetry

abbrev pub pack_telemetry : Telemetry.Telemetry → Result Bytes
pack_telemetry = Telemetry.pack_telemetry

-- for seq_num in range(...): if seq_num not in fedavg_chunks: return
unfoldable pub has_chunks : ℕ → ℕ → Dict (List ℕ) → Bool
has_chunks seq_num zero chunks = true
has_chunks seq_num (suc left) chunks =
    if contains seq_num chunks then has_chunks (suc seq_num) left chunks else false

abbrev pub compute_fedavg : RoundState → Dict (Dict (List ℤ)) → Result (Dict (List ℕ))
compute_fedavg = Fedavg.compute_fedavg

module _ (platform : Platform) where
  abbrev pub trigger_recovery : Exec Session Unit
  trigger_recovery = Round.trigger_recovery platform

  abbrev pub unmask_client_chunks : RoundState → Result (Dict (Dict (List ℤ)))
  unmask_client_chunks = Fedavg.unmask_client_chunks platform

  -- The two steps, and what follows them: the result is stored only if it has every chunk.
  unfoldable pub aggregate_in_steps : Exec Session Unit
  aggregate_in_steps = do
    round ← gets (λ s. s.round)
    client_unmasked ← lift (unmask_client_chunks round)
    fedavg_chunks ← lift (compute_fedavg round client_unmasked)
    num_chunks ← lift (num_chunks_of round.model_size round.chunk_size)
    if has_chunks 0 num_chunks fedavg_chunks
        then (do
          modify (λ s. record s {
            round = record s.round { unmasked_chunks = fedavg_chunks; stage = round_complete };
          })
          publish platform)
        else pure tt

  unfoldable pub unmask_and_aggregate : Exec Session Unit
  unmask_and_aggregate = do setup_keys_and_masks platform; trigger_recovery; aggregate_in_steps

  abbrev pub handle_round_failure : Exec Session Unit
  handle_round_failure = Round.handle_round_failure platform

  abbrev pub check_round_completion : Exec Session Unit → Exec Session Unit
  check_round_completion = Round.check_round_completion platform
