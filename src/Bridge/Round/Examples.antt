-- ===== src/Bridge/Round/Examples.antt =====
-- The end of the sample round.
use dropout.Prelude.{refl, ◌≡◌, arith, false, some, [], ◌∷◌}
use dropout.Prelude.Exec.{ok, err, name_error, value_error, for_each}
use dropout.Bridge.State.{Session, error, round_complete}
use dropout.Samples.{
  sample_platform, sample_round, sample_session, first_client, second_client, third_client,
  masked_session,
}
use dropout.Bridge.Aggregate.{count_completed, num_chunks_of}
use dropout.Bridge.Round.{
  publish, send_results, send_result, chunk_values, range, trigger_recovery, check_round_completion,
  unmask_and_aggregate,
}
use dropout.Prelude.Dict.{lookup, keys}
use dropout.Bytes.{pack_int16s}
use dropout.Wire.{build_header}
use dropout.Bridge.Telemetry.{collect_telemetry, pack_telemetry}
use dropout.Bridge.Fedavg.Examples.{result}
use dropout.Field.Shape.{IsShaped}
use dropout.Bridge.Keys.Examples.{nine_platform, nine_works, keyed_session}
use dropout.Bridge.Round.Completes.{IsSound, check_round_completion_completes}
use dropout.Bridge.Round.Completion.{check_round_completion_failure}
use dropout.Bridge.Round.Recovery.{trigger_recovery_fails}

-- Two of the three clients have dropped out.
abbrev failing : Session
failing = record sample_session { round = record sample_round { dropout_clients = 3 ∷ 2 ∷ [] } }

check_round_completion_failure_example :
    check_round_completion sample_platform (unmask_and_aggregate sample_platform) failing
    ≡ (err name_error, record failing { round = record failing.round { stage = error } })
check_round_completion_failure_example =
    check_round_completion_failure sample_platform (unmask_and_aggregate sample_platform) failing
      (omega arith)

-- One of two survivors has completed.
abbrev waiting : Session
waiting = record sample_session {
  round = record sample_round {
    clients = (1, first_client) ∷ (2, record second_client { completed = false }) ∷ [];
  };
}

still_waiting :
    check_round_completion sample_platform (unmask_and_aggregate sample_platform) waiting
    ≡ (ok tt, waiting)
unfolding check_round_completion count_completed
still_waiting = refl

-- Both survivors have a secret.
abbrev keyed : Session
keyed = record sample_session {
  round = record sample_round {
    clients =
        (1, record first_client { shared_secret = some (1 ∷ []) })
        ∷ (2, record second_client { shared_secret = some (2 ∷ []) })
        ∷ (3, third_client)
        ∷ [];
  };
}

trigger_recovery_fails_example : trigger_recovery sample_platform keyed ≡ (err value_error, keyed)
trigger_recovery_fails_example =
    trigger_recovery_fails sample_platform keyed (omega arith, tt) (omega arith)

pub recovery_masked : trigger_recovery sample_platform masked_session ≡ (ok tt, masked_session)
unfolding trigger_recovery for_each
recovery_masked = refl

abbrev pub stored_session : Session
stored_session = record masked_session {
  round = record masked_session.round { unmasked_chunks = result; stage = round_complete };
}

pub publish_stored : (publish sample_platform stored_session).0 ≡ ok tt
unfolding publish send_results send_result chunk_values range collect_telemetry pack_telemetry
    pack_int16s build_header num_chunks_of for_each lookup
publish_stored = refl

-- Nobody has dropped out, and both clients have completed.
keyed_session-IsSound : IsSound nine_platform keyed_session
unfolding keys
keyed_session-IsSound = record {
  working = nine_works;
  small_clients = (omega arith, (omega arith, tt));
  small_round = omega arith;
  positive = omega arith;
  short = omega arith;
  few = omega arith;
  fit = ((refl, (refl, tt)), ((refl, tt), tt));
}

check_round_completion_completes_example :
    (s' : Session) × (check_round_completion nine_platform
        (unmask_and_aggregate nine_platform)
        keyed_session
      ≡ (ok tt, s'))
    × (s'.round.stage ≡ round_complete)
    × IsShaped 2 2 s'.round.unmasked_chunks
unfolding count_completed
check_round_completion_completes_example =
    check_round_completion_completes nine_platform keyed_session keyed_session-IsSound refl
      (omega arith) (omega arith)
