-- ===== src/Bridge/Fedavg/Examples.antt =====
-- The two steps of the aggregation on the sample round.
use dropout.Prelude.{ℕ, ◌*◌, ◌%◌, ◌≡◌, refl, arith, List, [], ◌∷◌}
use dropout.Prelude.Int.{ℤ, pos, negsuc, ◌+ℤ◌, ◌*ℤ◌, ◌%ℤ◌}
use dropout.Prelude.Dict.{Dict, lookup, insert}
use dropout.Prelude.Exec.{ok}
use dropout.Bytes.{unpack_int16s}
use dropout.Shamir.{mod_inv}
use dropout.Samples.{sample_platform, sample_round, masked_session}
use dropout.Bridge.Aggregate.{num_chunks_of, zero_chunks, chunk_of, add_values, scale, elem}
use dropout.Bridge.Aggregate.Spec.{value_at}
use dropout.Bridge.Fedavg.{
  unpack_received, unmask_survivors, unmask_dropouts, unmask_client_chunks, unmasked_samples,
  unmasked_completed, unmasked_total, add_unmasked_chunk, add_unmasked_chunks, add_unmasked_client,
  add_unmasked, compute_fedavg,
}
use dropout.Bridge.Fedavg.Average.{unmasked_sum, compute_fedavg_average}

abbrev pub unmasked : Dict (Dict (List ℤ))
unmasked =
    (1, (0, pos 5 ∷ negsuc 0 ∷ []) ∷ (1, pos 1 ∷ pos 2 ∷ []) ∷ [])
    ∷ (2, (0, pos 8 ∷ pos 4 ∷ []) ∷ [])
    ∷ []

unmasked_sample : unmask_client_chunks sample_platform sample_round ≡ ok unmasked
unfolding unmask_client_chunks num_chunks_of unmask_survivors unmask_dropouts unpack_received elem
    unpack_int16s lookup insert
unmasked_sample = refl

abbrev pub result : Dict (List ℕ)
result = (0, 6 ∷ 2220 ∷ []) ∷ (1, 2220 ∷ 1111 ∷ []) ∷ []

computed : compute_fedavg sample_round unmasked ≡ ok result
unfolding compute_fedavg num_chunks_of zero_chunks add_unmasked add_unmasked_client
    add_unmasked_chunks add_unmasked_chunk chunk_of add_values unmasked_samples unmasked_completed
    scale lookup insert ◌+ℤ◌ ◌*ℤ◌ mod_inv
computed = refl

pub unmasked_masked : unmask_client_chunks sample_platform masked_session.round ≡ ok unmasked
unfolding unmask_client_chunks num_chunks_of unmask_survivors unmask_dropouts unpack_received elem
    unpack_int16s lookup insert
unmasked_masked = refl

pub computed_masked : compute_fedavg masked_session.round unmasked ≡ ok result
unfolding compute_fedavg num_chunks_of zero_chunks add_unmasked add_unmasked_client
    add_unmasked_chunks add_unmasked_chunk chunk_of add_values unmasked_samples unmasked_completed
    scale lookup insert ◌+ℤ◌ ◌*ℤ◌ mod_inv
computed_masked = refl

compute_fedavg_average_example :
    value_at 0 1 result * unmasked_total unmasked sample_round.clients % 3329
    ≡ unmasked_sum 0 1 sample_round.clients unmasked %ℤ 3329
unfolding unmasked_samples unmasked_completed lookup
compute_fedavg_average_example =
    compute_fedavg_average sample_round unmasked result 0 1 computed (omega arith) (omega arith)
