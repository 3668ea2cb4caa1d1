-- ===== src/Classical/WellFormed.antt =====
-- Every message keeps the rounds of host_server/baseline_server.py well formed.
use dropout.Prelude.{ℕ}
use dropout.Prelude.Exec.Keeps.{Keeps, keeps_rules}
use dropout.Bytes.{Bytes}
use dropout.Platform.{Platform, KeyExchange}
use dropout.Bridge.Keys.Fits.{SessionFits, Keeps-set_client}
use dropout.Bridge.Round.Fits.{trigger_recovery-fits, check_round_completion-fits}
use dropout.Bridge.Handlers.WellFormed.{
  IsWellFormed, Keeps-in_round, Keeps-with_client, set_writer-fits, handle_round_init-IsWellFormed,
  handle_public_key-IsWellFormed, handle_mask_chunk-IsWellFormed,
  handle_client_complete-IsWellFormed, handle_dropout_notify-IsWellFormed,
}
use dropout.Incoming.WellFormed.{unmask_and_aggregate-fits}
use dropout.Classical.Keys.{classical}
use dropout.Classical.Wire.{MessageHeader}
use dropout.Classical.Round.{ClassicalProtocolBridge, trigger_recovery, unmask_and_aggregate}
use dropout.Classical.{
  check, handle_pairwise_pubkey, handle_pairwise_ciphertext, handle_client_complete,
  handle_dropout_notify, dispatch_message,
}

handle_pairwise_pubkey-IsWellFormed :
    (header : MessageHeader) (payload : Bytes) (writer : ℕ)
    → Keeps IsWellFormed (handle_pairwise_pubkey header payload writer)
unfolding handle_pairwise_pubkey
handle_pairwise_pubkey-IsWellFormed header payload writer =
    search (keeps_rules, Keeps-in_round, Keeps-with_client, Keeps-set_client, set_writer-fits) depth
      9

handle_pairwise_ciphertext-IsWellFormed :
    (header : MessageHeader) (payload : Bytes)
    → Keeps IsWellFormed (handle_pairwise_ciphertext header payload)
unfolding handle_pairwise_ciphertext
handle_pairwise_ciphertext-IsWellFormed header payload =
    search (keeps_rules, Keeps-in_round, Keeps-with_client, Keeps-set_client) depth 9

module _ (x : KeyExchange) (platform : Platform) where
  check-fits : (cs : ℕ) → Keeps (SessionFits cs) (check x platform)
  check-fits cs =
      check_round_completion-fits (classical x platform) (unmask_and_aggregate x platform)
        (unmask_and_aggregate-fits (classical x platform))

  complete_rule :
      (header : MessageHeader) (payload : Bytes)
      → Keeps IsWellFormed (handle_client_complete x platform header payload)
  complete_rule = handle_client_complete-IsWellFormed (check x platform) check-fits

  dropout_rule :
      (header : MessageHeader) (payload : Bytes)
      → Keeps IsWellFormed (handle_dropout_notify x platform header payload)
  dropout_rule =
      handle_dropout_notify-IsWellFormed (check x platform) check-fits (trigger_recovery x platform)
        (λ cs. trigger_recovery-fits (classical x platform))

  -- Every message, whatever it raises, keeps the classical server well formed: the chunks of every
  -- client of every round have two bytes for each of the `chunk_size` elements of that round.
  pub classical_dispatch-IsWellFormed :
      (header : MessageHeader) (payload : Bytes) (writer : ℕ) (bridge : ClassicalProtocolBridge)
      → IsWellFormed bridge
      → IsWellFormed (dispatch_message x platform header payload writer bridge).1
  unfolding dispatch_message
  classical_dispatch-IsWellFormed header payload writer bridge h = kept.at bridge h
    where
      kept : Keeps IsWellFormed (dispatch_message x platform header payload writer)
      kept =
          search
            (
              keeps_rules, handle_public_key-IsWellFormed, handle_mask_chunk-IsWellFormed,
              complete_rule, dropout_rule, handle_round_init-IsWellFormed,
              handle_pairwise_pubkey-IsWellFormed, handle_pairwise_ciphertext-IsWellFormed,
            )
            depth 12
