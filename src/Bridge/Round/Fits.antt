-- ===== src/Bridge/Round/Fits.antt =====
-- The end of a round keeps the length of the received chunks.
use dropout.Prelude.{ℕ}
use dropout.Prelude.Exec.{Exec, modify, ◌>>◌}
use dropout.Prelude.Exec.Keeps.{Keeps, Keeps-continue, keeps_rules}
use dropout.Bytes.{Bytes}
use dropout.Platform.{Platform}
use dropout.Bridge.Aggregate.{finalize_aggregation}
use dropout.Bridge.State.{Session, unmasking}
use dropout.Bridge.Aggregate.Average.{finalize_aggregation-clients}
use dropout.Bridge.Keys.Fits.{
  SessionFits, Keeps-set_client, Keeps-client_at, Keeps-send, Keeps-stage,
  setup_keys_and_masks-fits,
}
use dropout.Bridge.Round.{
  recover_client, trigger_recovery, aggregate, send_result, send_results, publish,
  unmask_and_aggregate, notify_failure, handle_round_failure, check_round_completion,
}

module _ (platform : Platform) {cs : ℕ} where
  recover_client-fits : (k : ℕ) → Keeps (SessionFits cs) (recover_client platform k)
  unfolding recover_client
  recover_client-fits k = search (keeps_rules, Keeps-client_at, Keeps-set_client) depth 12

  pub trigger_recovery-fits : Keeps (SessionFits cs) (trigger_recovery platform)
  unfolding trigger_recovery
  trigger_recovery-fits = search (keeps_rules, recover_client-fits)

  aggregate-fits : Keeps (SessionFits cs) (aggregate platform)
  unfolding aggregate
  aggregate-fits = record {
    at = λ s h.
        Keeps-continue (SessionFits cs) (finalize_aggregation s.round)
          (λ round' t. modify (λ u. record u { round = round' }) t) s h
          (λ round' e.
            let (same_size, same) = finalize_aggregation-clients s.round round' e in
            (rw same_size h.0, rw same h.1));
  }

  send_result-fits :
      (bytes : Bytes) (writer k : ℕ) → Keeps (SessionFits cs) (send_result platform bytes writer k)
  unfolding send_result
  send_result-fits bytes writer k = search (keeps_rules, Keeps-send) depth 12

  send_results-fits :
      (bytes : Bytes) (entry : ℕ × ℕ) → Keeps (SessionFits cs) (send_results platform bytes entry)
  unfolding send_results
  send_results-fits bytes entry = search (keeps_rules, send_result-fits) depth 12

  pub publish-fits : Keeps (SessionFits cs) (publish platform)
  unfolding publish
  publish-fits = search (keeps_rules, send_results-fits) depth 12

  pub unmask_and_aggregate-fits : Keeps (SessionFits cs) (unmask_and_aggregate platform)
  unfolding unmask_and_aggregate
  unmask_and_aggregate-fits =
      search
        (
          keeps_rules, setup_keys_and_masks-fits, trigger_recovery-fits, aggregate-fits,
          publish-fits,
        )
        depth 14

  notify_failure-fits : (entry : ℕ × ℕ) → Keeps (SessionFits cs) (notify_failure platform entry)
  unfolding notify_failure
  notify_failure-fits entry = search keeps_rules

  handle_round_failure-fits : Keeps (SessionFits cs) (handle_round_failure platform)
  unfolding handle_round_failure
  handle_round_failure-fits = search (keeps_rules, notify_failure-fits)

  module _ (unmask : Exec Session Unit) (keeps : Keeps (SessionFits cs) unmask) where
    unmask-fits :
        Keeps
          (SessionFits cs)
          (modify (λ s. record s { round = record s.round { stage = unmasking } }) >> unmask)
    unmask-fits = record { at = λ s h. keeps.at _ h }

    -- `_check_round_completion` keeps the length of the received chunks.
    pub check_round_completion-fits :
        Keeps (SessionFits cs) (check_round_completion platform unmask)
    unfolding check_round_completion
    check_round_completion-fits =
        search (keeps_rules, Keeps-stage, unmask-fits, handle_round_failure-fits) depth 12
