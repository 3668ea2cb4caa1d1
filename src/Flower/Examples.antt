-- ===== src/Flower/Examples.antt =====
-- A model of two arrays, cut into chunks of two elements.
use dropout.Prelude.{true, ℕ, ◌+◌, ◌*◌, ◌%◌, ◌≡◌, refl, arith, map, false, List, [], ◌∷◌}
use dropout.Prelude.Int.{pos, ◌+ℤ◌, ◌*ℤ◌, ◌%ℤ◌}
use dropout.Prelude.Dict.{Dict, lookup, insert}
use dropout.Prelude.Exec.{ok}
use dropout.Bytes.{Bytes, bytes_of, pack_int16s, unpack_int16s, pack_uint16, pack_uint32}
use dropout.Shamir.{mod_inv}
use dropout.Samples.{sample_bridge}
use dropout.Bridge.State.{new_round}
use dropout.Bridge.Aggregate.{elem, zero_chunks, add_values, chunk_of, scale}
use dropout.Bridge.Aggregate.Spec.{value_at}
use dropout.Bridge.Handlers.{add_round, start_round}
use dropout.Flower.Arrays.{Numpy, NdArray}
use dropout.Flower.RoundTrip.{recast, model_to_chunks_back}
use dropout.Flower.Average.{results_sum, average_results_average}
use dropout.Flower.RoundInit.{swapped16, swapped32, start_round-round_init_payload}
use dropout.Flower.Updates.{total_weight_next}
use dropout.Flower.{
  FitRes, ChunkedFedAvg, ceil_div, flatten, chunks_from, model_to_chunks, chunks_to_model,
  add_client_chunks, add_results, average_results, round_init_payload, process_chunked_update,
  record_samples, sum_values,
}

-- Arrays of small numbers.
abbrev sample_numpy : Numpy
sample_numpy = record {
  Element = ℕ;
  to_int16 = λ e. pos (e % 100);
  from_int16 = λ v. v %ℤ 100;
  to_int16-IsInt16 = λ e. ground arith;
}

abbrev first_array : NdArray sample_numpy
first_array = record { shape = 2 ∷ []; elements = 5 ∷ 7 ∷ [] }

abbrev second_array : NdArray sample_numpy
second_array = record { shape = 1 ∷ []; elements = 9 ∷ [] }

model_to_chunks_back_example :
    (chunks : Dict Bytes) × ((model_to_chunks sample_numpy 2 (first_array ∷ second_array ∷ [])
        ≡ ok chunks)
      × (chunks_to_model sample_numpy 2 chunks (first_array ∷ second_array ∷ [])
          ≡ ok (map (recast sample_numpy) (first_array ∷ second_array ∷ []))))
model_to_chunks_back_example =
    model_to_chunks_back sample_numpy 2 first_array (second_array ∷ []) (omega arith)

-- Two models, of weight 1 and 2.
abbrev results : List (FitRes sample_numpy)
results =
    record { num_examples = 1; ndarrays = first_array ∷ second_array ∷ [] }
    ∷ record { num_examples = 2; ndarrays = first_array ∷ first_array ∷ [] }
    ∷ []

abbrev averaged : Dict (List ℕ)
averaged = (0, 5 ∷ 7 ∷ []) ∷ (1, 1116 ∷ 2224 ∷ []) ∷ []

computed : average_results sample_numpy 2 2 3 results ≡ ok averaged
unfolding average_results add_results add_client_chunks model_to_chunks ceil_div flatten chunks_from
    zero_chunks chunk_of add_values scale lookup insert pack_int16s unpack_int16s ◌+ℤ◌ ◌*ℤ◌ mod_inv
computed = refl

average_results_average_example :
    value_at 1 0 averaged * 3 % 3329 ≡ results_sum sample_numpy 2 1 0 (omega arith) results %ℤ 3329
average_results_average_example =
    average_results_average sample_numpy 2 1 0 (omega arith) 2 3 results averaged computed
      (omega arith)

-- Three clients, two chunks of 128 elements.
abbrev payload : Bytes
payload = 3 ∷ 2 ∷ 0 ∷ 128 ∷ 0 ∷ 0 ∷ 2 ∷ 0 ∷ []

packed : round_init_payload 3 2 128 ≡ ok payload
unfolding round_init_payload bytes_of pack_uint16 pack_uint32
packed = refl

start_round-round_init_payload_example :
    start_round 8 payload sample_bridge
    ≡ (ok tt, add_round (new_round 8 3 2 (swapped16 128) (swapped32 (2 * 128 * 2))) sample_bridge)
start_round-round_init_payload_example =
    start_round-round_init_payload 8 3 2 128 payload sample_bridge packed

total_weight_next_example :
    sum_values (record_samples (4 ∷ 4 ∷ []) []) ≡ sum_values (record_samples (4 ∷ []) []) + 0
unfolding elem
total_weight_next_example = total_weight_next (4 ∷ []) 4

-- One chunk is expected of the client whose number of examples is 40.
abbrev strategy : ChunkedFedAvg sample_numpy
strategy = record {
  chunk_size = 2;
  current_round = 1;
  client_samples = (40, 40) ∷ [];
  client_chunks = [];
  expected_chunks = (40, 1) ∷ [];
  io = sample_bridge.io;
}

-- The chunk of client 2 never completes an update; a client with the number 40 would be done.
unexpected_chunk : (process_chunked_update sample_numpy 1 2 0 first_array strategy).0 ≡ false
unfolding process_chunked_update lookup insert
unexpected_chunk = refl

expected_chunk : (process_chunked_update sample_numpy 1 40 0 first_array strategy).0 ≡ true
unfolding process_chunked_update lookup insert
expected_chunk = refl
