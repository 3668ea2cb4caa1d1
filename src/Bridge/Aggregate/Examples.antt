-- ===== src/Bridge/Aggregate/Examples.antt =====
-- `_finalize_aggregation` on the sample round.
use dropout.Prelude.{◌*◌, ◌%◌, ◌/◌, ◌≡◌, refl, arith, some, [], ◌∷◌}
use dropout.Prelude.Int.{◌+ℤ◌, ◌*ℤ◌, ◌%ℤ◌}
use dropout.Prelude.Dict.{lookup, insert, keys}
use dropout.Prelude.Exec.{ok, err, name_error}
use dropout.Bytes.{unpack_int16s}
use dropout.Shamir.{mod_inv}
use dropout.Bridge.State.{RoundState, round_complete}
use dropout.Samples.{sample_round, first_client, second_client, third_client}
use dropout.Bridge.Aggregate.{
  finalize_aggregation, num_chunks_of, zero_chunks, add_survivors, elem, add_client, add_chunks,
  add_chunk, chunk_of, add_values, add_dropouts, dropout_is_recovered, total_samples, sum_samples,
  count_completed, scale,
}
use dropout.Bridge.Aggregate.Spec.{value_at, survivors_sum}
use dropout.Bridge.Aggregate.Average.{finalize_aggregation_average, finalize_aggregation_vanishes}
use dropout.Bridge.Aggregate.Totality.{finalize_aggregation_total, finalize_aggregation_name_error}
use dropout.Field.Shape.{IsShaped}

-- (2 * 5 + 8) / 3 = 6 and (-2 + 4) / 3 in the first chunk; 2 / 3 and 4 / 3 in the second.
abbrev averaged : RoundState
averaged = record sample_round {
  stage = round_complete;
  unmasked_chunks = (0, 6 ∷ 2220 ∷ []) ∷ (1, 2220 ∷ 1111 ∷ []) ∷ [];
}

finalize_sample : finalize_aggregation sample_round ≡ ok averaged
unfolding finalize_aggregation num_chunks_of zero_chunks add_survivors elem add_client add_chunks
    add_chunk chunk_of add_values add_dropouts dropout_is_recovered total_samples sum_samples
    count_completed scale lookup insert keys unpack_int16s ◌+ℤ◌ ◌*ℤ◌ mod_inv
finalize_sample = refl

finalize_aggregation_average_example :
    value_at 0 1 averaged.unmasked_chunks * total_samples sample_round.clients % 3329
    ≡ survivors_sum 0 1 sample_round (keys sample_round.clients) %ℤ 3329
unfolding total_samples sum_samples
finalize_aggregation_average_example =
    finalize_aggregation_average sample_round averaged 0 1 finalize_sample (omega arith)
      (omega arith)

finalize_aggregation_total_example :
    (round' : RoundState) × (finalize_aggregation sample_round ≡ ok round')
    × IsShaped (4 / 2) 2 round'.unmasked_chunks
    × (round'.stage ≡ round_complete)
unfolding lookup dropout_is_recovered
finalize_aggregation_total_example =
    finalize_aggregation_total sample_round (omega arith)
      ((refl, (refl, tt)), ((refl, tt), (tt, tt))) refl

-- The round where the third client has a secret.
abbrev recovered_round : RoundState
recovered_round = record sample_round {
  clients =
      (1, first_client)
      ∷ (2, second_client)
      ∷ (3, record third_client { shared_secret = some (9 ∷ []) })
      ∷ [];
}

finalize_aggregation_name_error_example : finalize_aggregation recovered_round ≡ err name_error
unfolding lookup dropout_is_recovered
finalize_aggregation_name_error_example =
    finalize_aggregation_name_error recovered_round (omega arith)
      ((refl, (refl, tt)), ((refl, tt), (tt, tt))) refl

-- The round where the second client counts 3327 samples, so that the total is 3329.
abbrev full_round : RoundState
full_round = record sample_round {
  clients =
      (1, first_client)
      ∷ (2, record second_client { sample_count = 3327 })
      ∷ (3, third_client)
      ∷ [];
}

abbrev vanished : RoundState
vanished = record full_round {
  stage = round_complete;
  unmasked_chunks = (0, 0 ∷ 0 ∷ []) ∷ (1, 0 ∷ 0 ∷ []) ∷ [];
}

finalize_full : finalize_aggregation full_round ≡ ok vanished
unfolding finalize_aggregation num_chunks_of zero_chunks add_survivors elem add_client add_chunks
    add_chunk chunk_of add_values add_dropouts dropout_is_recovered total_samples sum_samples
    count_completed scale lookup insert keys unpack_int16s ◌+ℤ◌ ◌*ℤ◌ mod_inv
finalize_full = refl

finalize_aggregation_vanishes_example : value_at 0 0 vanished.unmasked_chunks ≡ 0
unfolding total_samples sum_samples
finalize_aggregation_vanishes_example =
    finalize_aggregation_vanishes full_round vanished 0 0 finalize_full (omega arith) (omega arith)
      (omega arith)
