-- ===== src/Bridge/Aggregate.antt =====
-- `_finalize_aggregation`: the weighted average of the survivors' chunks in GF(3329).
pub mod Spec
pub mod Sums
pub mod Average
pub mod Totality
pub mod Examples
use dropout.Prelude.{
  ℕ, zero, suc, ◌+◌, ◌*◌, ◌/◌, ◌%◌, Bool, true, false, not, ◌&&◌, ◌||◌, Option, none, some, List,
  [], ◌∷◌, ltb, leb, ◌==◌, if◌then◌else◌, map, replicate,
}
use dropout.Prelude.Int.{ℤ, pos, ◌+ℤ◌, ◌*ℤ◌, ◌%ℤ◌}
use dropout.Prelude.Dict.{Dict, lookup, insert, keys}
use dropout.Prelude.Exec.{
  Result, ok, err, key_error, index_error, name_error, zero_division, and_then,
}
use dropout.Bytes.{Bytes, unpack_int16s}
use dropout.Field.{field_modulus}
use dropout.Shamir.{mod_inv}
use dropout.Bridge.State.{ClientState, RoundState, round_complete, is_set}

-- cid in dropout_clients
unfoldable pub elem : ℕ → List ℕ → Bool
elem k [] = false
elem k (x ∷ xs) = k == x || elem k xs

-- model_size // chunk_size
unfoldable pub num_chunks_of : ℕ → ℕ → Result ℕ
num_chunks_of model_size chunk_size =
    if chunk_size == 0 then err zero_division else ok (model_size / chunk_size)

-- {i: [0] * chunk_elements for i in range(num_chunks)}, from the chunk `i` on.
unfoldable pub zero_chunks : ℕ → ℕ → ℕ → Dict (List ℕ)
zero_chunks i zero chunk_elements = []
zero_chunks i (suc left) chunk_elements =
    (i, replicate chunk_elements 0) ∷ zero_chunks (suc i) left chunk_elements

-- for j, val in enumerate(values): acc[j] = (acc[j] + val * weight) % FIELD_MODULUS
unfoldable pub add_values : ℕ → List ℤ → List ℕ → Result (List ℕ)
add_values weight [] acc = ok acc
add_values weight (v ∷ vs) [] = err index_error
add_values weight (v ∷ vs) (a ∷ acc) =
    and_then (add_values weight vs acc)
      (λ rest. ok (((pos a +ℤ v *ℤ pos weight) %ℤ field_modulus) ∷ rest))

unfoldable pub chunk_of : ℕ → Dict (List ℕ) → Result (List ℕ)
chunk_of seq_num chunks = elim (lookup seq_num chunks) [ none ↦ err key_error | some l ↦ ok l ]

-- One received chunk; one past the last is skipped.
pub add_chunk : ℕ → ℕ → ℕ → ℕ → Bytes → Dict (List ℕ) → Result (Dict (List ℕ))
unfolding chunk_of
add_chunk num_chunks chunk_elements weight seq_num chunk_data chunks =
    if leb num_chunks seq_num
    then ok chunks
    else and_then (unpack_int16s chunk_elements chunk_data) (λ values.
      and_then (chunk_of seq_num chunks)
        (λ acc. and_then (add_values weight values acc) (λ acc'. ok (insert seq_num acc' chunks))))

pub add_chunks : ℕ → ℕ → ℕ → Dict Bytes → Dict (List ℕ) → Result (Dict (List ℕ))
add_chunks num_chunks chunk_elements weight [] chunks = ok chunks
add_chunks num_chunks chunk_elements weight ((seq_num, chunk_data) ∷ received) chunks =
    and_then (add_chunk num_chunks chunk_elements weight seq_num chunk_data chunks)
      (λ chunks'. add_chunks num_chunks chunk_elements weight received chunks')

-- sample_count if sample_count > 0 else 1
abbrev pub weight_of : ClientState → ℕ
weight_of c = if ltb 0 c.sample_count then c.sample_count else 1

-- One survivor; a client that has not completed is skipped.
pub add_client : ℕ → ℕ → Option ClientState → Dict (List ℕ) → Result (Dict (List ℕ))
add_client num_chunks chunk_elements none chunks = err key_error
add_client num_chunks chunk_elements (some c) chunks =
    if c.completed
    then add_chunks num_chunks chunk_elements (weight_of c) c.received_chunks chunks
    else ok chunks

-- The loop over the surviving clients.
pub add_survivors : ℕ → ℕ → RoundState → List ℕ → Dict (List ℕ) → Result (Dict (List ℕ))
add_survivors num_chunks chunk_elements round [] chunks = ok chunks
add_survivors num_chunks chunk_elements round (cid ∷ ids) chunks =
    and_then
      (if elem cid round.dropout_clients
        then ok chunks
        else add_client num_chunks chunk_elements (lookup cid round.clients) chunks)
      (λ chunks'. add_survivors num_chunks chunk_elements round ids chunks')

pub dropout_is_recovered : Option ClientState → Bool
dropout_is_recovered none = false
dropout_is_recovered (some c) = is_set c.shared_secret

-- The loop over the dropped clients. For a client with a secret the code calls
-- `recover_dropped_client_masks`, a name that only `_trigger_recovery` imports, into its own scope.
pub add_dropouts : RoundState → List ℕ → Dict (List ℕ) → Result (Dict (List ℕ))
unfolding dropout_is_recovered
add_dropouts round [] chunks = ok chunks
add_dropouts round (dropout_id ∷ ids) chunks =
    if dropout_is_recovered (lookup dropout_id round.clients)
    then err name_error
    else add_dropouts round ids chunks

pub sum_samples : Dict ClientState → ℕ
sum_samples [] = 0
sum_samples ((k, c) ∷ clients) =
    (if c.completed && ltb 0 c.sample_count then c.sample_count else 0) + sum_samples clients

unfoldable pub count_completed : Dict ClientState → ℕ
count_completed [] = 0
count_completed ((k, c) ∷ clients) = (if c.completed then 1 else 0) + count_completed clients

pub total_samples : Dict ClientState → ℕ
total_samples clients =
    if sum_samples clients == 0 then count_completed clients else sum_samples clients

-- The two loops that multiply every element by the inverse of the total.
unfoldable pub scale : ℕ → Dict (List ℕ) → Dict (List ℕ)
scale inv [] = []
scale inv ((seq_num, l) ∷ chunks) =
    (seq_num, map (λ x. x * inv % field_modulus) l) ∷ scale inv chunks

abbrev pub average : ℕ → Dict (List ℕ) → Dict (List ℕ)
average total chunks = if ltb 1 total then scale (mod_inv total) chunks else chunks

unfoldable pub finalize_aggregation : RoundState → Result RoundState
finalize_aggregation round =
    and_then (num_chunks_of round.model_size round.chunk_size) (λ num_chunks.
      and_then
        (add_survivors num_chunks round.chunk_size round (keys round.clients)
          (zero_chunks 0 num_chunks round.chunk_size))
        (λ summed. and_then (add_dropouts round round.dropout_clients summed) (λ chunks.
          ok (record round {
            unmasked_chunks = average (total_samples round.clients) chunks;
            stage = round_complete;
          }))))
