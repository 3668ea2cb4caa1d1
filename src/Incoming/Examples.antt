-- ===== src/Incoming/Examples.antt =====
-- The server of the lower side of the merge on the sample rounds.
use dropout.Prelude.Dict.{lookup}
use dropout.Prelude.{◌≡◌, refl, true, ◌∷◌, []}
use dropout.Prelude.Exec.{ok, ◌>>◌}
use dropout.Wire.RoundTrip.{header_of}
use dropout.Samples.{sample_platform, sample_bridge, keyless_session}
use dropout.Bridge.Aggregate.{num_chunks_of}
use dropout.Bridge.Round.{publish}
use dropout.Bridge.Keys.Examples.{setup_keyless}
use dropout.Bridge.Fedavg.Examples.{result, unmasked_masked, computed_masked}
use dropout.Bridge.Round.Examples.{recovery_masked, stored_session, publish_stored}
use dropout.Bridge.Handlers.WellFormed.{IsWellFormed}
use dropout.Incoming.{dispatch_message}
use dropout.Incoming.Keys.{setup_keys_and_masks}
use dropout.Incoming.Round.{
  Session, has_chunks, trigger_recovery, aggregate_in_steps, unmask_and_aggregate,
}
use dropout.Incoming.WellFormed.{incoming_dispatch-IsWellFormed}
use dropout.Incoming.Completes.{Aggregated, unmask_and_aggregate-completes}

incoming_dispatch-IsWellFormed_example :
    IsWellFormed
      (dispatch_message sample_platform
        (header_of 0x21 7 2 1 4)
        (0 ∷ 1 ∷ 0 ∷ 2 ∷ [])
        5
        sample_bridge).1
incoming_dispatch-IsWellFormed_example =
    incoming_dispatch-IsWellFormed sample_platform (header_of 0x21 7 2 1 4) (0 ∷ 1 ∷ 0 ∷ 2 ∷ []) 5
      sample_bridge (((refl, (refl, tt)), ((refl, tt), (tt, tt))), tt)

has_result : has_chunks 0 2 result ≡ true
unfolding has_chunks lookup
has_result = refl

num_chunks : num_chunks_of 4 2 ≡ ok 2
unfolding num_chunks_of
num_chunks = refl

abbrev completed_session : Session
completed_session = (publish sample_platform stored_session).1

completes : unmask_and_aggregate sample_platform keyless_session ≡ (ok tt, completed_session)
unfolding unmask_and_aggregate aggregate_in_steps
completes =
    rw (setup_keyless, recovery_masked, unmasked_masked, computed_masked, num_chunks, has_result)
      (λ i. (publish_stored i, completed_session))

abbrev recovered_session : Session
recovered_session =
    ((setup_keys_and_masks sample_platform >> trigger_recovery sample_platform) keyless_session).1

unmask_and_aggregate-completes_example :
    Aggregated sample_platform recovered_session.round completed_session.round
unmask_and_aggregate-completes_example =
    unmask_and_aggregate-completes sample_platform keyless_session completed_session completes
