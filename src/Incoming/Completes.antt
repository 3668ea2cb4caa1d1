-- ===== src/Incoming/Completes.antt =====
-- `_unmask_and_aggregate` of the lower side of the merge in host_server/protocol_bridge.py: its
-- early return is never taken.
use dropout.Prelude.{ℕ, zero, suc, ◌+◌, ◌<◌, ◌≡◌, refl, arith, true, List}
use dropout.Prelude.Int.{ℤ}
use dropout.Prelude.Dict.{Dict, contains}
use dropout.Prelude.Exec.{ok, lift, bind-eq-ok, ◌>>◌}
use dropout.Platform.{Platform}
use dropout.Bridge.State.{round_complete}
use dropout.Bridge.Aggregate.{num_chunks_of}
use dropout.Bridge.Fedavg.Covers.{contains-compute_fedavg}
use dropout.Bridge.Round.{publish}
use dropout.Bridge.Round.Publish.{publish-round}
use dropout.Incoming.Keys.{setup_keys_and_masks}
use dropout.Incoming.Round.{
  RoundState, Session, has_chunks, compute_fedavg, unmask_client_chunks, trigger_recovery,
  aggregate_in_steps, unmask_and_aggregate,
}

has_chunks-contains :
    (seq_num left : ℕ) (chunks : Dict (List ℕ))
    → ((k : ℕ) → k < seq_num + left → contains k chunks ≡ true)
    → has_chunks seq_num left chunks ≡ true
unfolding has_chunks
has_chunks-contains seq_num zero chunks all = refl
has_chunks-contains seq_num (suc left) chunks all =
    rw (all seq_num (omega arith))
      (has_chunks-contains (suc seq_num) left chunks (λ k below. all k (omega arith)))

-- The round is complete, and it holds the average of the values of its clients.
abbrev pub Aggregated : Platform → RoundState → RoundState → Type 0
Aggregated platform before after =
    (unmasked : Dict (Dict (List ℤ))) × ((unmask_client_chunks platform before ≡ ok unmasked)
      × ((compute_fedavg before unmasked ≡ ok after.unmasked_chunks)
          × (after.stage ≡ round_complete)))

abbrev store : Dict (List ℕ) → Session → Session
store chunks s = record s {
  round = record s.round { unmasked_chunks = chunks; stage = round_complete };
}

module _ (platform : Platform) where
  aggregate_in_steps-completes :
      (s s' : Session)
      → aggregate_in_steps platform s ≡ (ok tt, s')
      → Aggregated platform s.round s'.round
  unfolding aggregate_in_steps
  aggregate_in_steps-completes s s' h =
      let (unmasked, (u, h1)) =
        bind-eq-ok (lift (unmask_client_chunks platform s.round)) _ s s' h in
      let (chunks, (c, h2)) = bind-eq-ok (lift (compute_fedavg s.round unmasked)) _ s s' h1 in
      let (n, (e, h3)) =
        bind-eq-ok (lift (num_chunks_of s.round.model_size s.round.chunk_size)) _ s s' h2 in
      let all =
        has_chunks-contains 0 n chunks
          (λ k below. contains-compute_fedavg s.round unmasked chunks n k e c (omega arith)) in
      let stored = store chunks s in
      let h4 : publish platform stored ≡ (ok tt, s') = rw all at h3 in
      let kept = (publish-round platform stored.round).at stored refl in
      let same : s'.round ≡ stored.round = rw h4 at kept in (unmasked, (u, (rw same c, rw same)))

  -- When `_unmask_and_aggregate` of the lower side returns, the round is complete, and it holds what
  -- `_compute_fedavg` gives for the values that `_unmask_client_chunks` reads from the round as the
  -- key setup and the recovery left it: the early return for a missing chunk is never taken.
  pub unmask_and_aggregate-completes :
      (s s' : Session)
      → unmask_and_aggregate platform s ≡ (ok tt, s')
      → Aggregated platform
          ((setup_keys_and_masks platform >> trigger_recovery platform) s).1.round
          s'.round
  unfolding unmask_and_aggregate
  unmask_and_aggregate-completes s s' h =
      let (t, (keyed, h1)) = bind-eq-ok (setup_keys_and_masks platform) _ s s' h in
      let s1 = (setup_keys_and_masks platform s).1 in
      let (t1, (recovered, h2)) = bind-eq-ok (trigger_recovery platform) _ s1 s' h1 in
      rw keyed (aggregate_in_steps-completes (trigger_recovery platform s1).1 s' h2)
