-- ===== src/Workflow/Log.antt =====
-- What the steps of experiments/scripts/run_workflow.py add to the log of each node.
use dropout.Prelude.{
  ℕ, zero, suc, ◌+◌, ◌<◌, ◌≤◌, ◌≡◌, refl, sym, ap, ◌∙◌, arith, some, List, [], ◌∷◌, ◌++◌,
  append_assoc, append_nil, ltb, leb, ◌&&◌, ◌==◌, if◌then◌else◌, inl, inr, Bool-cases,
}
use dropout.Prelude.Dict.{lookup, insert, lookup-insert}
use dropout.Prelude.Exec.{Exec, ok, pure, gets, modify, for_each, ◌>>=◌, ◌>>◌}
use mathlib.Core.Path.{subst}
use dropout.Workflow.{
  ProtocolState, Metadata, NodeState, WorkflowOrchestrator, range, round_init, set_and_log,
  new_node, transition_state,
}

-- The states in the rows of one node.
unfoldable pub states_of : ℕ → List NodeState → List ProtocolState
states_of k [] = []
states_of k (row ∷ log) = if row.node_id == k then row.state ∷ states_of k log else states_of k log

states_of-append :
    (k : ℕ) (log rows : List NodeState)
    → states_of k (log ++ rows) ≡ states_of k log ++ states_of k rows
unfolding states_of
states_of-append k [] rows = refl
states_of-append k (row ∷ log) rows = elim (Bool-cases (row.node_id == k)) [
  | inl e ↦ rw e (ap (λ l. row.state ∷ l) (states_of-append k log rows))
  | inr e ↦ rw e (states_of-append k log rows)
]

-- A node of the round stands under its own number.
abbrev pub HasNode : WorkflowOrchestrator → ℕ → Type 0
HasNode s k = (node : NodeState) × ((lookup k s.node_states ≡ some node) × (node.node_id ≡ k))

-- The active nodes are those below `n`; those below `at.0` are there, and `at.1` have completed.
pub record Ready (n : ℕ) (at : ℕ × List ℕ) (s : WorkflowOrchestrator) : Type 0 where
  pub active : s.active_nodes ≡ range 0 n
  pub completed : s.completed_nodes ≡ at.1
  pub none_dropped : s.dropped ≡ []
  pub has_node : (k : ℕ) → k < at.0 → HasNode s k

-- From one such stage, `m` returns, comes to the next, and adds states to the log of each node.
pub record Logs (n : ℕ) (at at' : ℕ × List ℕ) (m : Exec WorkflowOrchestrator Unit)
    (added : ℕ → List ProtocolState) : Type 0 where
  pub returns : (s : WorkflowOrchestrator) → Ready n at s → (m s).0 ≡ ok tt
  pub ready : (s : WorkflowOrchestrator) → Ready n at s → Ready n at' (m s).1
  pub logs :
      (s : WorkflowOrchestrator)
      → Ready n at s
      → (k : ℕ) → states_of k (m s).1.log ≡ states_of k s.log ++ added k

module _ {n : ℕ} {at at' : ℕ × List ℕ} where
  pub Logs-then :
      {at'' : ℕ × List ℕ} (m m' : Exec WorkflowOrchestrator Unit)
      (added added' : ℕ → List ProtocolState)
      → Logs n at at' m added
      → Logs n at' at'' m' added'
      → Logs n at at'' (m >> m') (λ k. added k ++ added' k)
  Logs-then m m' added added' l l' = record {
    returns = λ s h. rw (l.returns s h) (l'.returns (m s).1 (l.ready s h));
    ready = λ s h. rw (l.returns s h) (l'.ready (m s).1 (l.ready s h));
    logs = λ s h k. rw (l.returns s h) (
        l'.logs (m s).1 (l.ready s h) k
        ∙ ap (λ t. t ++ added' k) (l.logs s h k)
        ∙ append_assoc (states_of k s.log) (added k) (added' k));
  }

  pub Logs-same :
      (m : Exec WorkflowOrchestrator Unit) (added added' : ℕ → List ProtocolState)
      → ((k : ℕ) → added k ≡ added' k)
      → Logs n at at' m added
      → Logs n at at' m added'
  Logs-same m added added' same l = record {
    returns = l.returns;
    ready = l.ready;
    logs = λ s h k. l.logs s h k ∙ ap (λ t. states_of k s.log ++ t) (same k);
  }

  -- A step over the active nodes.
  pub Logs-active :
      (f : List ℕ → Exec WorkflowOrchestrator Unit) (added : ℕ → List ProtocolState)
      → Logs n at at' (f (range 0 n)) added
      → Logs n at at' (gets (λ s. s.active_nodes) >>= f) added
  Logs-active f added l = record {
    returns =
        λ s h. subst (λ (nodes : List ℕ). (f nodes s).0 ≡ ok tt) (sym h.active) (l.returns s h);
    ready =
        λ s h. subst (λ (nodes : List ℕ). Ready n at' (f nodes s).1) (sym h.active) (l.ready s h);
    logs = λ s h k.
        subst (λ (nodes : List ℕ). states_of k (f nodes s).1.log ≡ states_of k s.log ++ added k)
          (sym h.active) (l.logs s h k);
  }

module _ {n : ℕ} where
  pub Logs-pure : {at : ℕ × List ℕ} → Logs n at at (pure tt) (λ k. [])
  Logs-pure = record {
    returns = λ s h. refl;
    ready = λ s h. h;
    logs = λ s h k. sym (append_nil (states_of k s.log));
  }

  -- One transition of a node that is there.
  pub transition-Logs :
      {done : List ℕ} (node_id : ℕ) (state : ProtocolState) (metadata : Metadata)
      → node_id < n
      → Logs n
          (n, done)
          (n, done)
          (transition_state node_id state metadata)
          (λ k. if node_id == k then state ∷ [] else [])
  unfolding transition_state states_of
  transition-Logs {done} node_id state metadata below = record {
    returns =
        λ s h. let (node, (found, id)) = h.has_node node_id below in rw (transition_state, found);
    ready = λ s h.
        let (node, (found, id)) = h.has_node node_id below in
        rw (transition_state, found)
          (record {
            active = h.active;
            completed = h.completed;
            none_dropped = h.none_dropped;
            has_node = λ k lt. moved_node s node id k (h.has_node k lt);
          });
    logs = λ s h k.
        let (node, (found, id)) = h.has_node node_id below in
        rw (transition_state, found, states_of-append k s.log (moved node ∷ []), states_of, id);
  }
    where
      moved : NodeState → NodeState
      moved node = record node { state = state; metadata = some metadata }

      moved_node :
          (s : WorkflowOrchestrator) (node : NodeState)
          → node.node_id ≡ node_id
          → (k : ℕ) → HasNode s k
          → (found : NodeState) × ((lookup k (insert node_id (moved node) s.node_states)
                ≡ some found)
              × (found.node_id ≡ k))
      moved_node s node id k (old, (there, old_id)) = elim (Bool-cases (node_id == k)) [
        | inl e ↦
            let same : node_id ≡ k = ground arith in
            (moved node, (rw (lookup-insert node_id k (moved node) s.node_states, e), id ∙ same))
        | inr e ↦ (old, (rw (lookup-insert node_id k (moved node) s.node_states, e) there, old_id))
      ]

  -- The i-th node of a new round.
  pub new_node-Logs :
      (round_id i : ℕ)
      → Logs n
          (i, [])
          (suc i, [])
          (modify (set_and_log (new_node round_id i)))
          (λ k. if i == k then round_init ∷ [] else [])
  unfolding states_of
  new_node-Logs round_id i = record {
    returns = λ s h. refl;
    ready = λ s h. record {
      active = h.active;
      completed = h.completed;
      none_dropped = h.none_dropped;
      has_node = λ k lt. here s h k lt;
    };
    logs = λ s h k. states_of-append k s.log (new_node round_id i ∷ []);
  }
    where
      here :
          (s : WorkflowOrchestrator)
          → Ready n (i, []) s
          → (k : ℕ) → k < suc i
          → (found : NodeState) × ((lookup k (insert i (new_node round_id i) s.node_states)
                ≡ some found)
              × (found.node_id ≡ k))
      here s h k lt = elim (Bool-cases (i == k)) [
        | inl e ↦
            let same : i ≡ k = ground arith in
            (
              new_node round_id i,
              (rw (lookup-insert i k (new_node round_id i) s.node_states, e), same),
            )
        | inr e ↦
            let (old, (there, id)) = h.has_node k (ground arith) in
            (old, (rw (lookup-insert i k (new_node round_id i) s.node_states, e) there, id))
      ]

-- A loop over the nodes from the i-th on, whose body adds one state to the log of its node.
module _ {n : ℕ} (stage : ℕ → ℕ × List ℕ) (state : ProtocolState)
    (body : ℕ → Exec WorkflowOrchestrator Unit)
    (step : (i : ℕ)
      → i < n
      → Logs n (stage i) (stage (suc i)) (body i) (λ k. if i == k then state ∷ [] else [])) where
  loop_state :
      (i left k : ℕ)
      → (if i == k then state ∷ [] else [])
          ++ (if leb (suc i) k && ltb k (suc i + left) then state ∷ [] else [])
        ≡ (if leb i k && ltb k (i + suc left) then state ∷ [] else [])
  loop_state i left k = ground arith

  pub loop-Logs :
      (i left : ℕ)
      → i + left ≤ n
      → Logs n
          (stage i)
          (stage (i + left))
          (for_each (range i left) body)
          (λ k. if leb i k && ltb k (i + left) then state ∷ [] else [])
  unfolding for_each range
  loop-Logs i zero h =
      let none_left : i ≡ i + 0 = omega arith in
      subst
        (λ m.
          Logs n (stage i) (stage m) (pure tt)
            (λ k. if leb i k && ltb k (i + 0) then state ∷ [] else []))
        none_left
        (Logs-same (pure tt) (λ k. []) (λ k. if leb i k && ltb k (i + 0) then state ∷ [] else [])
          (λ k. ground arith) Logs-pure)
  loop-Logs i (suc left) h =
      let later : suc i + left ≡ i + suc left = omega arith in
      subst
        (λ m.
          Logs n (stage i) (stage m) (body i >> for_each (range (suc i) left) body)
            (λ k. if leb i k && ltb k (i + suc left) then state ∷ [] else []))
        later
        (Logs-same (body i >> for_each (range (suc i) left) body) _ _ (loop_state i left) (
          Logs-then (body i) (for_each (range (suc i) left) body)
            (λ k. if i == k then state ∷ [] else [])
            (λ k. if leb (suc i) k && ltb k (suc i + left) then state ∷ [] else [])
            (step i (omega arith)) (loop-Logs (suc i) left (omega arith))))
