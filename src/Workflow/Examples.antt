-- ===== src/Workflow/Examples.antt =====
-- A round with two nodes.
use dropout.Prelude.{ℕ, ◌<◌, ◌≡◌, arith, [], ◌++◌, ◌==◌, if◌then◌else◌}
use dropout.Prelude.Exec.{ok}
use dropout.Workflow.Log.{states_of}
use dropout.Workflow.Round.{client_states, server_states, run_round_states}
use dropout.Workflow.{WorkflowOrchestrator, range, run_round}

abbrev two_nodes : WorkflowOrchestrator
two_nodes = record {
  num_nodes = 2;
  threshold = 1;
  current_round = 0;
  node_states = [];
  active_nodes = [];
  completed_nodes = [];
  dropped = [];
  log = [];
}

run_round_states_example :
    ((run_round 4 two_nodes).0 ≡ ok tt)
    × (((run_round 4 two_nodes).1.completed_nodes ≡ range 0 2)
        × (((run_round 4 two_nodes).1.dropped ≡ [])
            × ((k : ℕ)
                → k < 2
                → states_of k (run_round 4 two_nodes).1.log
                  ≡ states_of k [] ++ (client_states ++ (if 0 == k then server_states else [])))))
run_round_states_example = run_round_states 4 two_nodes (omega arith)
