-- ===== src/Workflow/Round.antt =====
-- One round of experiments/scripts/run_workflow.py, from any state of the orchestrator.
use dropout.Prelude.{
  ℕ, ◌+◌, ◌<◌, ◌≡◌, refl, ap, ◌∙◌, arith, true, List, [], ◌∷◌, ◌++◌, ltb, leb, ◌&&◌, ◌==◌,
  if◌then◌else◌, inl, inr, Bool-cases,
}
use dropout.Prelude.Exec.{ok, gets, modify, for_each, ◌>>=◌, ◌>>◌}
use dropout.Workflow.Log.{states_of, Ready, Logs, Logs-then, transition-Logs}
use dropout.Workflow.{
  ProtocolState, round_init, key_setup, mask_setup, local_training, masked_update_stream,
  client_completion, aggregation, fedavg, round_complete, server_aggregation_start,
  fedavg_computation, round_completed, WorkflowOrchestrator, range, set_and_log, new_node,
  run_key_setup, run_local_training, run_masked_stream, run_aggregation, run_fedavg,
  initialize_round, run_round,
}
use dropout.Workflow.Steps.{
  each, only_server, start-Logs, check-Logs, key_setup-Logs, local_training-Logs,
  masked_stream-Logs,
}

-- The states of one node in a round, and those of the server after them.
abbrev pub client_states : List ProtocolState
client_states =
    round_init ∷ key_setup ∷ mask_setup ∷ local_training ∷ masked_update_stream
    ∷ masked_update_stream ∷ client_completion ∷ []

abbrev pub server_states : List ProtocolState
server_states = aggregation ∷ fedavg ∷ round_complete ∷ []

-- All that a round adds to the log of one node.
abbrev round_added : ℕ → ℕ → List ProtocolState
round_added n k =
    each n round_init k
    ++ ((each n key_setup k ++ each n mask_setup k)
        ++ ((each n local_training k ++ each n masked_update_stream k)
            ++ ((each n masked_update_stream k ++ each n client_completion k)
                ++ ((only_server aggregation k ++ [])
                    ++ (only_server fedavg k ++ only_server round_complete k)))))

round_added-eq :
    (n k : ℕ) → k < n → round_added n k ≡ client_states ++ (if 0 == k then server_states else [])
round_added-eq n k below =
    let within : (leb 0 k && ltb k (0 + n)) ≡ true = ground arith in
    elim (Bool-cases (0 == k)) [
      | inl e ↦ rw (round_added, within, e)
      | inr e ↦ rw (round_added, within, e)
    ]

module _ {n : ℕ} (server : 0 < n) where
  aggregation-Logs :
      Logs n (n, range 0 n) (n, range 0 n) run_aggregation (λ k. only_server aggregation k ++ [])
  unfolding run_aggregation
  aggregation-Logs =
      Logs-then _ _ (only_server aggregation) (λ k. [])
        (transition-Logs 0 aggregation server_aggregation_start server) check-Logs

  fedavg-Logs :
      Logs n
        (n, range 0 n)
        (n, range 0 n)
        run_fedavg
        (λ k. only_server fedavg k ++ only_server round_complete k)
  unfolding run_fedavg
  fedavg-Logs =
      Logs-then _ _ (only_server fedavg) (only_server round_complete)
        (transition-Logs 0 fedavg fedavg_computation server)
        (transition-Logs 0 round_complete round_completed server)

  whole-Logs :
      (round_id : ℕ)
      → Logs n
          (0, [])
          (n, range 0 n)
          ((gets (λ s. s.active_nodes) >>= λ nodes.
              for_each nodes (λ k. modify (set_and_log (new_node round_id k))))
            >> (run_key_setup
                >> (run_local_training >> (run_masked_stream >> (run_aggregation >> run_fedavg)))))
          (round_added n)
  whole-Logs round_id = Logs-then _ _ _ _ (start-Logs round_id) (
      Logs-then _ _ _ _ key_setup-Logs (
        Logs-then _ _ _ _ local_training-Logs
          (Logs-then _ _ _ _ masked_stream-Logs (Logs-then _ _ _ _ aggregation-Logs fedavg-Logs))))

-- With at least one node and whatever happened before, a round returns: every node below the number
-- of nodes goes once through the states of a client, and node 0 through those of the server after
-- them; all nodes have completed, and none is ever found to have dropped out.
pub run_round_states :
    (round_id : ℕ) (s : WorkflowOrchestrator)
    → 0 < s.num_nodes
    → ((run_round round_id s).0 ≡ ok tt)
      × (((run_round round_id s).1.completed_nodes ≡ range 0 s.num_nodes)
          × (((run_round round_id s).1.dropped ≡ [])
              × ((k : ℕ)
                  → k < s.num_nodes
                  → states_of k (run_round round_id s).1.log
                    ≡ states_of k s.log
                      ++ (client_states ++ (if 0 == k then server_states else [])))))
unfolding run_round initialize_round
run_round_states round_id s server =
    let n = s.num_nodes in
    let t = record s {
      current_round = round_id;
      active_nodes = range 0 n;
      completed_nodes = [];
      dropped = [];
    } in
    let fresh : Ready n (0, []) t = record {
      active = refl;
      completed = refl;
      none_dropped = refl;
      has_node = λ k lt. absurd (omega arith);
    } in
    let round = whole-Logs server round_id in
    let after = round.ready t fresh in
    (
      round.returns t fresh,
      (
        after.completed,
        (
          after.none_dropped,
          λ k below.
              round.logs t fresh k ∙ ap (λ l. states_of k s.log ++ l) (round_added-eq n k below),
        ),
      ),
    )
