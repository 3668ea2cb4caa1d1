-- ===== src/Bridge/Round.antt =====
-- The end of a round: _trigger_recovery, _unmask_and_aggregate, _handle_round_failure and
-- _check_round_completion.
pub mod Fits
pub mod Publish
pub mod Sends
pub mod Completes
pub mod Recovery
pub mod Completion
pub mod Examples
use dropout.Prelude.{
  ℕ, zero, suc, ◌+◌, ◌/◌, Bool, true, false, not, ◌&&◌, Option, none, some, List, [], ◌∷◌, ◌++◌,
  ltb, leb, ◌==◌, if◌then◌else◌, length, map,
}
use dropout.Prelude.Int.{ℤ, pos, sub_ℕ, leb_ℤ, ltb_ℤ}
use dropout.Prelude.Dict.{Dict, lookup, insert, keys}
use dropout.Prelude.Exec.{
  Result, Exec, ok, err, key_error, name_error, pure, raise, lift, gets, modify, for_each, and_then,
  ◌>>=◌, ◌>>◌,
}
use dropout.Bytes.{Bytes, pack_int16s}
use dropout.Platform.{Platform}
use dropout.Wire.{build_header}
use dropout.Wire.MsgType
use dropout.Kdf.{derive_shamir_secret}
use dropout.Shamir.{head, reconstruct_secret_bytes}
use dropout.Bridge.State.{
  ClientState, RoundState, Session, Stage, unmasking, error, is_set, set_client, client_at, send,
}
use dropout.Bridge.Keys.{setup_keys_and_masks}
use dropout.Bridge.Aggregate.{finalize_aggregation, count_completed, num_chunks_of}
use dropout.Bridge.Telemetry.{collect_telemetry, pack_telemetry}

module _ (platform : Platform) where
  open platform use {is_closing, connection_lost}

  -- The share of one client in front of the others, if the client has a secret.
  pub add_share : ℕ → ℕ → ℕ → Option Bytes → Result (List (ℕ × Bytes)) → Result (List (ℕ × Bytes))
  add_share client_id dropout_id round_id none rest = rest
  add_share client_id dropout_id round_id (some []) rest = rest
  add_share client_id dropout_id round_id (some (b ∷ bs)) rest =
      and_then (derive_shamir_secret platform (b ∷ bs) dropout_id round_id)
        (λ secret. and_then rest (λ shares. ok ((client_id, secret) ∷ shares)))

  -- The list `shares` for one dropped client: a secret derived from that of every other client.
  pub recovery_shares : ℕ → ℕ → Dict ClientState → Result (List (ℕ × Bytes))
  recovery_shares dropout_id round_id [] = ok []
  recovery_shares dropout_id round_id ((client_id, c) ∷ clients) =
      let rest = recovery_shares dropout_id round_id clients in
      if client_id == dropout_id
      then rest
      else add_share client_id dropout_id round_id c.shared_secret rest

  -- `_trigger_recovery`, for one dropped client.
  pub recover_client : ℕ → Exec Session Unit
  recover_client dropout_id = do
    round ← gets (λ s. s.round)
    shares ← lift (recovery_shares dropout_id round.round_id round.clients)
    if leb round.threshold (length shares)
        then (do
          recovered ← lift (reconstruct_secret_bytes head shares)
          c ← client_at dropout_id
          modify (set_client dropout_id (record c { shared_secret = some recovered })))
        else pure tt

  pub trigger_recovery : Exec Session Unit
  trigger_recovery = do
    dropouts ← gets (λ s. s.round.dropout_clients)
    for_each dropouts recover_client

  -- `_finalize_aggregation`; the round changes only if nothing raises.
  pub aggregate : Exec Session Unit
  aggregate = do
    round ← gets (λ s. s.round)
    round' ← lift (finalize_aggregation round)
    modify (λ s. record s { round = round' })

  chunk_values : ℕ → Dict (List ℕ) → Result (List ℕ)
  chunk_values seq_num chunks = elim (lookup seq_num chunks) [
    | none ↦ err key_error
    | some l ↦ ok l
  ]

  -- One chunk of the result to one writer.
  pub send_result : Bytes → ℕ → ℕ → Exec Session Unit
  unfolding chunk_values
  send_result telemetry_payload writer seq_num = do
    round ← gets (λ s. s.round)
    values ← lift (chunk_values seq_num round.unmasked_chunks)
    result ← lift (pack_int16s (map pos values))
    header ← lift (
        build_header MsgType.round_complete round.round_id 0 seq_num
          (length result + length telemetry_payload))
    send connection_lost writer (header ++ (result ++ telemetry_payload))

  pub range : ℕ → ℕ → List ℕ
  range i zero = []
  range i (suc left) = i ∷ range (suc i) left

  pub send_results : Bytes → (ℕ × ℕ) → Exec Session Unit
  unfolding range
  send_results telemetry_payload (client_id, writer) = do
    round ← gets (λ s. s.round)
    num_chunks ← lift (num_chunks_of round.model_size round.chunk_size)
    for_each (range 0 num_chunks) (send_result telemetry_payload writer)

  -- The end of `_unmask_and_aggregate`: the telemetry, and the result to every writer.
  pub publish : Exec Session Unit
  publish = do
    round ← gets (λ s. s.round)
    telemetry ← lift (collect_telemetry round)
    telemetry_payload ← lift (pack_telemetry telemetry)
    writers ← gets (λ s. s.io.client_writers)
    for_each writers (send_results telemetry_payload)

  pub unmask_and_aggregate : Exec Session Unit
  unmask_and_aggregate = do setup_keys_and_masks platform; trigger_recovery; aggregate; publish

  -- `_handle_round_failure`, for one writer. MSG_TYPE_ERROR is not defined.
  pub notify_failure : (ℕ × ℕ) → Exec Session Unit
  notify_failure (client_id, writer) = if not (is_closing writer) then raise name_error else pure tt

  pub handle_round_failure : Exec Session Unit
  unfolding notify_failure
  handle_round_failure = do
    writers ← gets (λ s. s.io.client_writers)
    for_each writers notify_failure

  abbrev set_stage : Stage → Exec Session Unit
  set_stage stage = modify (λ s. record s { round = record s.round { stage = stage } })

  -- `_check_round_completion`, over the `_unmask_and_aggregate` of its class.
  pub check_round_completion : Exec Session Unit → Exec Session Unit
  check_round_completion unmask = do
    round ← gets (λ s. s.round)
    let completed = count_completed round.clients
    let surviving = sub_ℕ round.expected_clients (length round.dropout_clients)
    if leb_ℤ surviving (pos completed) && leb_ℤ (pos round.threshold) surviving
        then (do set_stage unmasking; unmask)
        else if ltb_ℤ surviving (pos round.threshold)
        then (do set_stage error; handle_round_failure)
        else pure tt
