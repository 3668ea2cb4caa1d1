-- ===== src/Incoming/WellFormed.antt =====
-- Every message keeps the rounds of the lower side of the merge in host_server/protocol_bridge.py
-- well formed.
use dropout.Prelude.{ℕ, List}
use dropout.Prelude.Dict.{Dict}
use dropout.Prelude.Exec.{modify}
use dropout.Prelude.Exec.Keeps.{Keeps, keeps_rules}
use dropout.Bytes.{Bytes}
use dropout.Platform.{Platform}
use dropout.Bridge.State.{round_complete}
use dropout.Bridge.Keys.Fits.{SessionFits, setup_keys_and_masks-fits}
use dropout.Bridge.Round.Fits.{trigger_recovery-fits, publish-fits, check_round_completion-fits}
use dropout.Bridge.Handlers.WellFormed.{
  IsWellFormed, handle_round_init-IsWellFormed, handle_public_key-IsWellFormed,
  handle_mask_chunk-IsWellFormed, handle_client_complete-IsWellFormed,
  handle_dropout_notify-IsWellFormed,
}
use dropout.Incoming.Wire.{MessageHeader}
use dropout.Incoming.Round.{
  ProtocolBridge, trigger_recovery, aggregate_in_steps, unmask_and_aggregate,
}
use dropout.Incoming.{check, handle_client_complete, handle_dropout_notify, dispatch_message}

module _ (platform : Platform) where
  store-fits :
      {cs : ℕ} (chunks : Dict (List ℕ))
      → Keeps (SessionFits cs) (
          modify (λ s. record s {
            round = record s.round { unmasked_chunks = chunks; stage = round_complete };
          }))
  store-fits chunks = record { at = λ s h. h }

  aggregate_in_steps-fits : {cs : ℕ} → Keeps (SessionFits cs) (aggregate_in_steps platform)
  unfolding aggregate_in_steps
  aggregate_in_steps-fits = search (keeps_rules, store-fits, publish-fits) depth 14

  pub unmask_and_aggregate-fits : {cs : ℕ} → Keeps (SessionFits cs) (unmask_and_aggregate platform)
  unfolding unmask_and_aggregate
  unmask_and_aggregate-fits =
      search
        (keeps_rules, setup_keys_and_masks-fits, trigger_recovery-fits, aggregate_in_steps-fits)
        depth 12

  check-fits : (cs : ℕ) → Keeps (SessionFits cs) (check platform)
  check-fits cs =
      check_round_completion-fits platform (unmask_and_aggregate platform) unmask_and_aggregate-fits

  complete_rule :
      (header : MessageHeader) (payload : Bytes)
      → Keeps IsWellFormed (handle_client_complete platform header payload)
  complete_rule = handle_client_complete-IsWellFormed (check platform) check-fits

  dropout_rule :
      (header : MessageHeader) (payload : Bytes)
      → Keeps IsWellFormed (handle_dropout_notify platform header payload)
  dropout_rule =
      handle_dropout_notify-IsWellFormed (check platform) check-fits (trigger_recovery platform)
        (λ cs. trigger_recovery-fits platform)

  -- Every message, whatever it raises, keeps the server of the lower side well formed: the chunks of
  -- every client of every round have two bytes for each of the `chunk_size` elements of that round.
  pub incoming_dispatch-IsWellFormed :
      (header : MessageHeader) (payload : Bytes) (writer : ℕ) (bridge : ProtocolBridge)
      → IsWellFormed bridge
      → IsWellFormed (dispatch_message platform header payload writer bridge).1
  unfolding dispatch_message
  incoming_dispatch-IsWellFormed header payload writer bridge h = kept.at bridge h
    where
      kept : Keeps IsWellFormed (dispatch_message platform header payload writer)
      kept =
          search
            (
              keeps_rules, handle_public_key-IsWellFormed, handle_mask_chunk-IsWellFormed,
              complete_rule, dropout_rule, handle_round_init-IsWellFormed,
            )
            depth 12
