-- ===== src/Workflow/Steps.antt =====
-- The steps of a round of experiments/scripts/run_workflow.py.
use dropout.Prelude.{
  ℕ, zero, suc, ◌+◌, ◌≤◌, ◌≡◌, refl, sym, ap, ◌∙◌, arith, false, List, [], ◌∷◌, ◌++◌, append_nil,
  length, ltb, leb, ◌&&◌, ◌==◌, if◌then◌else◌,
}
use dropout.Prelude.Exec.{gets, modify, for_each, ◌>>=◌, ◌>>◌}
use mathlib.Core.Path.{subst}
use dropout.Bridge.Aggregate.{elem}
use dropout.Workflow.Log.{
  states_of, Ready, Logs, Logs-then, Logs-same, Logs-active, transition-Logs, new_node-Logs,
  loop-Logs,
}
use dropout.Workflow.{
  ProtocolState, round_init, key_setup, mask_setup, local_training, masked_update_stream,
  client_completion, Metadata, kem_keypair_gen, pairwise_mask_derived, local_sgd_start,
  streaming_start, chunks_sent, all_chunks_sent, WorkflowOrchestrator, range, set_and_log, new_node,
  add_completed, transition_state, run_key_setup, run_local_training, run_masked_stream,
  check_dropouts,
}

range-last : (i n : ℕ) → range i n ++ ((i + n) ∷ []) ≡ range i (suc n)
unfolding range
range-last i zero = let e : i + 0 ≡ i = omega arith in ap (λ m. m ∷ []) e
range-last i (suc n) =
    let e : i + suc n ≡ suc i + n = omega arith in
    ap (λ (l : List ℕ). i ∷ l) (ap (λ m. range (suc i) n ++ (m ∷ [])) e ∙ range-last (suc i) n)

elem-range : (k i n : ℕ) → i + n ≤ k → elem k (range i n) ≡ false
unfolding elem range
elem-range k i zero h = refl
elem-range k i (suc n) h =
    let other : (k == i) ≡ false = ground arith in rw other (elem-range k (suc i) n (omega arith))

-- The states that a step over all the nodes adds to one of them, and a step of the server.
abbrev pub each : ℕ → ProtocolState → ℕ → List ProtocolState
each n state k = if leb 0 k && ltb k (0 + n) then state ∷ [] else []

abbrev pub only_server : ProtocolState → ℕ → List ProtocolState
only_server state k = if 0 == k then state ∷ [] else []

module _ {n : ℕ} where
  -- A transition of all the active nodes.
  all-Logs :
      {done : List ℕ} (state : ProtocolState) (metadata : Metadata)
      → Logs n
          (n, done)
          (n, done)
          (for_each (range 0 n) (λ k. transition_state k state metadata))
          (λ k. if leb 0 k && ltb k (0 + n) then state ∷ [] else [])
  all-Logs {done} state metadata =
      loop-Logs (λ i. (n, done)) state (λ k. transition_state k state metadata)
        (λ i lt. transition-Logs i state metadata lt) 0 n (omega arith)

  completed-Logs :
      (i : ℕ) → Logs n (n, range 0 i) (n, range 0 (suc i)) (modify (add_completed i)) (λ k. [])
  completed-Logs i = record {
    returns = λ s h. refl;
    ready = λ s h.
        rw (add_completed, fresh s h)
          (record {
            active = h.active;
            completed = ap (λ l. l ++ (i ∷ [])) h.completed ∙ last;
            none_dropped = h.none_dropped;
            has_node = h.has_node;
          });
    logs = λ s h k. rw (add_completed, fresh s h) (sym (append_nil (states_of k s.log)));
  }
    where
      fresh :
          (s : WorkflowOrchestrator) → Ready n (n, range 0 i) s → elem i s.completed_nodes ≡ false
      fresh s h = ap (λ l. elem i l) h.completed ∙ elem-range i 0 i (omega arith)

      last : range 0 i ++ (i ∷ []) ≡ range 0 (suc i)
      last = let e : i ≡ 0 + i = omega arith in ap (λ m. range 0 i ++ (m ∷ [])) e ∙ range-last 0 i

  pub start-Logs :
      (round_id : ℕ)
      → Logs n
          (0, [])
          (n, [])
          (gets (λ s. s.active_nodes) >>= λ nodes.
            for_each nodes (λ k. modify (set_and_log (new_node round_id k))))
          (λ k. if leb 0 k && ltb k (0 + n) then round_init ∷ [] else [])
  start-Logs round_id =
      let body = λ (k : ℕ). modify (set_and_log (new_node round_id k)) in
      let added = λ (k : ℕ). if leb 0 k && ltb k (0 + n) then round_init ∷ [] else [] in
      let whole : 0 + n ≡ n = omega arith in
      Logs-active (λ nodes. for_each nodes body) added
        (subst (λ m. Logs n (0, []) (m, []) (for_each (range 0 n) body) added) whole
          (loop-Logs (λ i. (i, [])) round_init body (λ i lt. new_node-Logs round_id i) 0 n
            (omega arith)))

  complete-Logs :
      Logs n
        (n, [])
        (n, range 0 n)
        (for_each
          (range 0 n)
          (λ k. transition_state k client_completion all_chunks_sent >> modify (add_completed k)))
        (λ k. if leb 0 k && ltb k (0 + n) then client_completion ∷ [] else [])
  unfolding range
  complete-Logs =
      let body = λ (k : ℕ).
        transition_state k client_completion all_chunks_sent >> modify (add_completed k) in
      let added = λ (k : ℕ). if leb 0 k && ltb k (0 + n) then client_completion ∷ [] else [] in
      let whole : 0 + n ≡ n = omega arith in
      subst (λ m. Logs n (n, []) (n, range 0 m) (for_each (range 0 n) body) added) whole
        (loop-Logs (λ i. (n, range 0 i)) client_completion body
          (λ i lt.
            Logs-same (body i) _ _ (λ k. append_nil (if i == k then client_completion ∷ [] else []))
              (Logs-then (transition_state i client_completion all_chunks_sent)
                (modify (add_completed i)) _ (λ k. [])
                (transition-Logs i client_completion all_chunks_sent lt) (completed-Logs i)))
          0 n (omega arith))

  pub check-Logs : Logs n (n, range 0 n) (n, range 0 n) check_dropouts (λ k. [])
  unfolding check_dropouts
  check-Logs = record {
    returns = λ s h. rw (same s h);
    ready = λ s h. rw (same s h) h;
    logs = λ s h k. rw (same s h) (sym (append_nil (states_of k s.log)));
  }
    where
      same :
          (s : WorkflowOrchestrator)
          → Ready n (n, range 0 n) s
          → ltb (length s.completed_nodes) (length s.active_nodes) ≡ false
      same s h = let e = ap (λ (l : List ℕ). length l) (h.completed ∙ sym h.active) in ground arith

  pub key_setup-Logs :
      {done : List ℕ}
      → Logs n (n, done) (n, done) run_key_setup (λ k. each n key_setup k ++ each n mask_setup k)
  unfolding run_key_setup
  key_setup-Logs =
      Logs-active
        (λ nodes.
          for_each nodes (λ k. transition_state k key_setup kem_keypair_gen)
          >> for_each nodes (λ k. transition_state k mask_setup pairwise_mask_derived))
        _
        (Logs-then _ _ (each n key_setup) (each n mask_setup) (all-Logs key_setup kem_keypair_gen)
          (all-Logs mask_setup pairwise_mask_derived))

  pub local_training-Logs :
      {done : List ℕ}
      → Logs n
          (n, done)
          (n, done)
          run_local_training
          (λ k. each n local_training k ++ each n masked_update_stream k)
  unfolding run_local_training
  local_training-Logs =
      Logs-active
        (λ nodes.
          for_each nodes (λ k. transition_state k local_training local_sgd_start)
          >> for_each nodes (λ k. transition_state k masked_update_stream streaming_start))
        _
        (Logs-then _ _ (each n local_training) (each n masked_update_stream)
          (all-Logs local_training local_sgd_start) (all-Logs masked_update_stream streaming_start))

  pub masked_stream-Logs :
      Logs n
        (n, [])
        (n, range 0 n)
        run_masked_stream
        (λ k. each n masked_update_stream k ++ each n client_completion k)
  unfolding run_masked_stream
  masked_stream-Logs =
      Logs-active
        (λ nodes.
          for_each nodes (λ k. transition_state k masked_update_stream (chunks_sent 0))
          >> for_each nodes (λ k.
            transition_state k client_completion all_chunks_sent >> modify (add_completed k)))
        _
        (Logs-then _ _ (each n masked_update_stream) (each n client_completion)
          (all-Logs masked_update_stream (chunks_sent 0)) complete-Logs)
