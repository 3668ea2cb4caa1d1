-- ===== src/Workflow.antt =====
-- The rounds of experiments/scripts/run_workflow.py: the class WorkflowOrchestrator, which takes
-- every node through the states of the protocol and logs them. Its clock and its pauses are left
-- out, and so are the processes that it starts; a row of its log is the node that it was made of.
pub mod Log
pub mod Steps
pub mod Round
pub mod Examples
use dropout.Prelude.{
  ℕ, zero, suc, ◌<◌, Bool, Option, none, some, List, [], ◌∷◌, ◌++◌, ltb, length, if◌then◌else◌,
}
use dropout.Prelude.Dict.{Dict, lookup, insert}
use dropout.Prelude.Exec.{Exec, ok, name_error, pure, raise, gets, modify, for_each, ◌>>=◌, ◌>>◌}
use dropout.Bridge.Aggregate.{elem}

pub data ProtocolState : Type 0 where
  round_init key_setup mask_setup local_training masked_update_stream : ProtocolState
  client_completion aggregation dropout_detection mask_recovery unmask : ProtocolState
  fedavg round_complete : ProtocolState

-- The dictionaries that are passed as metadata.
pub data Metadata : Type 0 where
  round_init_sent kem_keypair_gen pairwise_mask_derived local_sgd_start : Metadata
  streaming_start all_chunks_sent server_aggregation_start masks_cancelled : Metadata
  fedavg_computation round_completed : Metadata
  chunks_sent missing_node : ℕ → Metadata
  dropout_nodes : List ℕ → Metadata

pub record NodeState : Type 0 where
  pub node_id : ℕ
  pub state : ProtocolState
  pub round_id : ℕ
  pub metadata : Option Metadata

-- The sets of nodes are lists without repetition, in the order in which they are gone through.
pub record WorkflowOrchestrator : Type 0 where
  pub num_nodes : ℕ
  pub threshold : ℕ
  pub current_round : ℕ
  pub node_states : Dict NodeState
  pub active_nodes : List ℕ
  pub completed_nodes : List ℕ
  pub dropped : List ℕ
  pub log : List NodeState

-- range(i, i + n)
unfoldable pub range : ℕ → ℕ → List ℕ
range i zero = []
range i (suc n) = i ∷ range (suc i) n

-- self.node_states[node.node_id] = node; self.logger.log(node)
abbrev pub set_and_log : NodeState → WorkflowOrchestrator → WorkflowOrchestrator
set_and_log node s = record s {
  node_states = insert node.node_id node s.node_states;
  log = s.log ++ (node ∷ []);
}

-- The node of a new round.
abbrev pub new_node : ℕ → ℕ → NodeState
new_node round_id node_id = record {
  node_id = node_id;
  state = round_init;
  round_id = round_id;
  metadata = some round_init_sent;
}

unfoldable pub initialize_round : ℕ → Exec WorkflowOrchestrator Unit
initialize_round round_id = do
  modify (λ s. record s {
    current_round = round_id;
    active_nodes = range 0 s.num_nodes;
    completed_nodes = [];
    dropped = [];
  })
  nodes ← gets (λ s. s.active_nodes)
  for_each nodes (λ node_id. modify (set_and_log (new_node round_id node_id)))

-- A node that is not there is skipped.
unfoldable pub transition_state : ℕ → ProtocolState → Metadata → Exec WorkflowOrchestrator Unit
transition_state node_id new_state metadata s = elim (lookup node_id s.node_states) [
  | none ↦ (ok tt, s)
  | some node ↦
      let node' = record node { state = new_state; metadata = some metadata } in
      (
        ok tt,
        record s { node_states = insert node_id node' s.node_states; log = s.log ++ (node' ∷ []) },
      )
]

unfoldable pub run_key_setup : Exec WorkflowOrchestrator Unit
run_key_setup = do
  nodes ← gets (λ s. s.active_nodes)
  for_each nodes (λ k. transition_state k key_setup kem_keypair_gen)
  for_each nodes (λ k. transition_state k mask_setup pairwise_mask_derived)

unfoldable pub run_local_training : Exec WorkflowOrchestrator Unit
run_local_training = do
  nodes ← gets (λ s. s.active_nodes)
  for_each nodes (λ k. transition_state k local_training local_sgd_start)
  for_each nodes (λ k. transition_state k masked_update_stream streaming_start)

-- self.completed_nodes.add(node_id)
abbrev pub add_completed : ℕ → WorkflowOrchestrator → WorkflowOrchestrator
add_completed k s =
    if elem k s.completed_nodes
    then s
    else record s { completed_nodes = s.completed_nodes ++ (k ∷ []) }

unfoldable pub run_masked_stream : Exec WorkflowOrchestrator Unit
run_masked_stream = do
  nodes ← gets (λ s. s.active_nodes)
  for_each nodes (λ k. transition_state k masked_update_stream (chunks_sent 0))
  for_each nodes
      (λ k. transition_state k client_completion all_chunks_sent >> modify (add_completed k))

-- The modules that draw and share a secret are missing: `secrets` is not imported.
unfoldable pub run_mask_recovery : Exec WorkflowOrchestrator Unit
run_mask_recovery = do
  dropped ← gets (λ s. s.dropped)
  transition_state 0 mask_recovery (dropout_nodes dropped)
  for_each dropped (λ dropout_id. raise name_error)
  transition_state 0 unmask masks_cancelled

-- active - completed
unfoldable pub without : List ℕ → List ℕ → List ℕ
without completed [] = []
without completed (k ∷ active) =
    if elem k completed then without completed active else k ∷ without completed active

unfoldable pub check_dropouts : Exec WorkflowOrchestrator Unit
check_dropouts = do
  s ← gets (λ s. s)
  if ltb (length s.completed_nodes) (length s.active_nodes)
      then (do
        modify (λ s. record s { dropped = without s.completed_nodes s.active_nodes })
        dropped ← gets (λ s. s.dropped)
        for_each dropped (λ k. transition_state k dropout_detection (missing_node k))
        run_mask_recovery)
      else pure tt

unfoldable pub run_aggregation : Exec WorkflowOrchestrator Unit
run_aggregation = do transition_state 0 aggregation server_aggregation_start; check_dropouts

unfoldable pub run_fedavg : Exec WorkflowOrchestrator Unit
run_fedavg = do
  transition_state 0 fedavg fedavg_computation
  transition_state 0 round_complete round_completed

-- One round of `run_workflow`.
unfoldable pub run_round : ℕ → Exec WorkflowOrchestrator Unit
run_round round_id = do
  initialize_round round_id
  run_key_setup
  run_local_training
  run_masked_stream
  run_aggregation
  run_fedavg

-- `run_workflow`, without the processes.
unfoldable pub run_workflow : ℕ → Exec WorkflowOrchestrator Unit
run_workflow rounds = for_each (range 0 rounds) run_round
