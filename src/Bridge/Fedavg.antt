-- ===== src/Bridge/Fedavg.antt =====
-- `_unmask_client_chunks` and `_compute_fedavg`: the aggregation in two steps, first the values of
-- every client, then their average. `_finalize_aggregation` does both at once and calls neither.
pub mod Average
pub mod Covers
pub mod Examples
use dropout.Prelude.{
  ℕ, zero, suc, ◌+◌, ◌/◌, Bool, true, false, ◌&&◌, not, Option, none, some, List, [], ◌∷◌, ltb, leb,
  ◌==◌, if◌then◌else◌,
}
use dropout.Prelude.Int.{ℤ, pos, ◌+ℤ◌, ◌%ℤ◌}
use dropout.Prelude.Dict.{Dict, lookup, insert, keys, contains}
use dropout.Prelude.Exec.{Result, ok, err, index_error, key_error, and_then}
use dropout.Bytes.{Bytes, unpack_int16s}
use dropout.Field.{field_modulus}
use dropout.Platform.{Platform}
use dropout.Masks.{recover_dropped_client_masks}
use dropout.Bridge.State.{ClientState, RoundState, is_set}
use dropout.Bridge.Aggregate.{
  elem, num_chunks_of, zero_chunks, add_values, chunk_of, weight_of, average,
}

-- The values of the chunks of one client; a chunk past the last is skipped.
pub unpack_received : ℕ → ℕ → Dict Bytes → Dict (List ℤ) → Result (Dict (List ℤ))
unpack_received num_chunks chunk_elements [] chunks = ok chunks
unpack_received num_chunks chunk_elements ((seq_num, chunk_data) ∷ received) chunks =
    if leb num_chunks seq_num
    then unpack_received num_chunks chunk_elements received chunks
    else and_then (unpack_int16s chunk_elements chunk_data) (λ values.
      unpack_received num_chunks chunk_elements received (insert seq_num values chunks))

-- The loop over the clients that did not drop out.
pub unmask_survivors :
    ℕ → ℕ → List ℕ → Dict ClientState → Dict (Dict (List ℤ)) → Result (Dict (Dict (List ℤ)))
unmask_survivors num_chunks chunk_elements dropouts [] unmasked = ok unmasked
unmask_survivors num_chunks chunk_elements dropouts ((client_id, c) ∷ clients) unmasked =
    if elem client_id dropouts
    then unmask_survivors num_chunks chunk_elements dropouts clients unmasked
    else and_then (unpack_received num_chunks chunk_elements c.received_chunks []) (λ chunks.
      unmask_survivors num_chunks chunk_elements dropouts clients
        (insert client_id chunks unmasked))

-- [(values[i] + recovered_masks[seq_num][i]) % FIELD_MODULUS for i in range(chunk_elements)]
pub unmask_values : List ℤ → List ℕ → Result (List ℤ)
unmask_values [] mask = ok []
unmask_values (v ∷ vs) [] = err index_error
unmask_values (v ∷ vs) (m ∷ mask) =
    and_then (unmask_values vs mask) (λ rest. ok (pos ((v +ℤ pos m) %ℤ field_modulus) ∷ rest))

-- The chunks of a dropped client, with its masks.
pub unmask_received : ℕ → ℕ → Dict (List ℕ) → Dict Bytes → Dict (List ℤ) → Result (Dict (List ℤ))
unmask_received num_chunks chunk_elements masks [] chunks = ok chunks
unmask_received num_chunks chunk_elements masks ((seq_num, chunk_data) ∷ received) chunks =
    if leb num_chunks seq_num
    then unmask_received num_chunks chunk_elements masks received chunks
    else and_then (unpack_int16s chunk_elements chunk_data) (λ values.
      and_then (chunk_of seq_num masks) (λ mask. and_then (unmask_values values mask) (λ unmasked.
        unmask_received num_chunks chunk_elements masks received (insert seq_num unmasked chunks))))

-- [cid for cid in clients.keys() if cid != dropout_id]
pub peers_of : ℕ → List ℕ → List ℕ
peers_of dropout_id [] = []
peers_of dropout_id (cid ∷ ids) =
    if cid == dropout_id then peers_of dropout_id ids else cid ∷ peers_of dropout_id ids

-- The secret of a dropped client, unless the client is missing or its secret empty.
abbrev pub secret_of : Option ClientState → Option Bytes
secret_of none = none
secret_of (some c) = if is_set c.shared_secret then c.shared_secret else none

module _ (platform : Platform) (round : RoundState) (num_chunks : ℕ) where
  -- One dropped client that has a secret.
  pub unmask_dropout : ℕ → Bytes → Result (Dict (List ℤ))
  unmask_dropout dropout_id secret =
      and_then
        (recover_dropped_client_masks platform secret round.round_id
          (peers_of dropout_id (keys round.clients)) dropout_id num_chunks round.chunk_size)
        (λ masks. elim (lookup dropout_id round.clients) [
          | none ↦ err key_error
          | some c ↦ unmask_received num_chunks round.chunk_size masks c.received_chunks []
        ])

  -- The loop over the dropped clients.
  pub unmask_dropouts : List ℕ → Dict (Dict (List ℤ)) → Result (Dict (Dict (List ℤ)))
  unmask_dropouts [] unmasked = ok unmasked
  unmask_dropouts (dropout_id ∷ ids) unmasked = elim (secret_of (lookup dropout_id round.clients)) [
    | none ↦ unmask_dropouts ids unmasked
    | some secret ↦
        and_then (unmask_dropout dropout_id secret)
          (λ chunks. unmask_dropouts ids (insert dropout_id chunks unmasked))
  ]

pub unmask_client_chunks : Platform → RoundState → Result (Dict (Dict (List ℤ)))
unmask_client_chunks platform round =
    and_then (num_chunks_of round.model_size round.chunk_size) (λ num_chunks.
      and_then (unmask_survivors num_chunks round.chunk_size round.dropout_clients round.clients [])
        (λ unmasked. unmask_dropouts platform round num_chunks round.dropout_clients unmasked))

pub unmasked_samples : Dict (Dict (List ℤ)) → Dict ClientState → ℕ
unmasked_samples unmasked [] = 0
unmasked_samples unmasked ((k, c) ∷ clients) =
    (if c.completed && (ltb 0 c.sample_count && contains c.client_id unmasked)
      then c.sample_count
      else 0)
    + unmasked_samples unmasked clients

pub unmasked_completed : Dict (Dict (List ℤ)) → Dict ClientState → ℕ
unmasked_completed unmasked [] = 0
unmasked_completed unmasked ((k, c) ∷ clients) =
    (if c.completed && contains c.client_id unmasked then 1 else 0)
    + unmasked_completed unmasked clients

abbrev pub unmasked_total : Dict (Dict (List ℤ)) → Dict ClientState → ℕ
unmasked_total unmasked clients =
    if unmasked_samples unmasked clients == 0
    then unmasked_completed unmasked clients
    else unmasked_samples unmasked clients

-- One chunk of one client, if the client has it.
pub add_unmasked_chunk : ℕ → Option (List ℤ) → ℕ → Dict (List ℕ) → Result (Dict (List ℕ))
add_unmasked_chunk weight none seq_num chunks = ok chunks
add_unmasked_chunk weight (some values) seq_num chunks =
    and_then (chunk_of seq_num chunks)
      (λ acc. and_then (add_values weight values acc) (λ acc'. ok (insert seq_num acc' chunks)))

-- for seq_num in range(num_chunks), from `seq_num` on.
pub add_unmasked_chunks : ℕ → Dict (List ℤ) → ℕ → ℕ → Dict (List ℕ) → Result (Dict (List ℕ))
add_unmasked_chunks weight values seq_num zero chunks = ok chunks
add_unmasked_chunks weight values seq_num (suc left) chunks =
    and_then (add_unmasked_chunk weight (lookup seq_num values) seq_num chunks)
      (λ chunks'. add_unmasked_chunks weight values (suc seq_num) left chunks')

pub add_unmasked_client :
    ℕ → Option ClientState → Dict (List ℤ) → Dict (List ℕ) → Result (Dict (List ℕ))
add_unmasked_client num_chunks none values chunks = ok chunks
add_unmasked_client num_chunks (some c) values chunks =
    if c.completed then add_unmasked_chunks (weight_of c) values 0 num_chunks chunks else ok chunks

-- The loop over the clients whose values are known.
pub add_unmasked :
    ℕ → Dict ClientState → Dict (Dict (List ℤ)) → Dict (List ℕ) → Result (Dict (List ℕ))
add_unmasked num_chunks clients [] chunks = ok chunks
add_unmasked num_chunks clients ((client_id, values) ∷ unmasked) chunks =
    and_then (add_unmasked_client num_chunks (lookup client_id clients) values chunks)
      (λ chunks'. add_unmasked num_chunks clients unmasked chunks')

pub compute_fedavg : RoundState → Dict (Dict (List ℤ)) → Result (Dict (List ℕ))
compute_fedavg round unmasked =
    and_then (num_chunks_of round.model_size round.chunk_size) (λ num_chunks.
      and_then
        (add_unmasked num_chunks round.clients unmasked (zero_chunks 0 num_chunks round.chunk_size))
        (λ chunks. ok (average (unmasked_total unmasked round.clients) chunks)))
