-- ===== src/Flower.antt =====
-- The aggregation of host_server/flower_server.py: the class ChunkedFedAvg, a Flower strategy that
-- cuts a model into chunks, adds up the chunks of the clients and puts the average together again.
-- The modulus is the default of its constructor, 3329.
pub mod Arrays
pub mod Slices
pub mod RoundTrip
pub mod Average
pub mod RoundInit
pub mod Updates
pub mod Examples
use dropout.Prelude.{
  ℕ, zero, suc, ◌+◌, ◌-◌, ◌*◌, ◌/◌, Option, none, some, List, [], ◌∷◌, ◌++◌, map, length, take,
  drop, replicate, Bool, ltb, ◌==◌, if◌then◌else◌,
}
use dropout.Prelude.Int.{ℤ, pos}
use dropout.Prelude.Dict.{Dict, lookup, insert, get_default}
use dropout.Prelude.Exec.{
  Result, Exec, ok, err, value_error, key_error, zero_division, connection_reset, pure, lift, gets,
  modify, and_then, for_each, ◌>>=◌, ◌>>◌,
}
use dropout.Bytes.{Bytes, bytes_of, pack_uint16, pack_uint32, pack_int16s, unpack_int16s}
use dropout.Shamir.{mod_inv}
use dropout.Wire.{build_header}
use dropout.Wire.MsgType
use dropout.Bridge.State.{Io}
use dropout.Bridge.Aggregate.{zero_chunks, add_values, chunk_of, scale}
use Arrays.{Numpy, NdArray}

-- (a + b - 1) // b
unfoldable pub ceil_div : ℕ → ℕ → Result ℕ
ceil_div a b = if b == 0 then err zero_division else ok ((a + b - 1) / b)

-- np.pad(chunk_data, (0, n - len(chunk_data)), mode='constant'), where the chunk is shorter.
abbrev pub pad : ℕ → List ℤ → List ℤ
pad n l = l ++ replicate (n - length l) (pos 0)

-- chunks[i] for `left` chunks from the i-th on.
unfoldable pub chunks_from : ℕ → List ℤ → ℕ → ℕ → Result (Dict Bytes)
chunks_from chunk_elements flat i zero = ok []
chunks_from chunk_elements flat i (suc left) =
    let chunk_data = take chunk_elements (drop (i * chunk_elements) flat) in
    and_then (pack_int16s (pad chunk_elements chunk_data)) (λ chunk_bytes.
      and_then (chunks_from chunk_elements flat (suc i) left)
        (λ chunks. ok ((i, chunk_bytes) ∷ chunks)))

-- The elements of `all_elements`, from the i-th chunk on.
unfoldable pub elements_from : ℕ → Dict Bytes → ℕ → ℕ → Result (List ℤ)
elements_from chunk_elements chunks i zero = ok []
elements_from chunk_elements chunks i (suc left) =
    and_then
      (elim (lookup i chunks) [ none ↦ ok [] | some bytes ↦ unpack_int16s chunk_elements bytes ])
      (λ values.
        and_then (elements_from chunk_elements chunks (suc i) left) (λ rest. ok (values ++ rest)))

module _ (numpy : Numpy) where
  -- np.concatenate([arr.flatten() for arr in ndarrays]).astype(np.int16); of no arrays it raises.
  unfoldable pub flatten : List (NdArray numpy) → List ℤ
  flatten [] = []
  flatten (a ∷ arrays) = map numpy.to_int16 a.elements ++ flatten arrays

  unfoldable pub model_to_chunks : ℕ → List (NdArray numpy) → Result (Dict Bytes)
  model_to_chunks chunk_size [] = err value_error
  model_to_chunks chunk_size (a ∷ arrays) =
      let flat = flatten (a ∷ arrays) in
      and_then (ceil_div (length flat) chunk_size)
        (λ num_chunks. chunks_from chunk_size flat 0 num_chunks)

  -- The loop over the reference arrays, from an offset on. A slice that is too short for its shape
  -- makes `reshape` raise.
  unfoldable pub arrays_from : List ℤ → ℕ → List (NdArray numpy) → Result (List (NdArray numpy))
  arrays_from flat offset [] = ok []
  arrays_from flat offset (ref ∷ refs) =
      let size = length ref.elements in
      let slice = take size (drop offset flat) in
      if length slice == size
      then and_then (arrays_from flat (offset + size) refs)
          (λ rest. ok (record ref { elements = map numpy.from_int16 slice } ∷ rest))
      else err value_error

  unfoldable pub chunks_to_model :
      ℕ → Dict Bytes → List (NdArray numpy) → Result (List (NdArray numpy))
  chunks_to_model chunk_size chunks refs =
      and_then (elements_from chunk_size chunks 0 (length chunks)) (λ flat. arrays_from flat 0 refs)

-- The loops over the chunks of one client and over the values of each.
unfoldable pub add_client_chunks : ℕ → ℕ → Dict Bytes → Dict (List ℕ) → Result (Dict (List ℕ))
add_client_chunks chunk_size weight [] aggregated = ok aggregated
add_client_chunks chunk_size weight ((chunk_idx, chunk_bytes) ∷ chunks) aggregated =
    and_then (unpack_int16s chunk_size chunk_bytes) (λ values.
      and_then (chunk_of chunk_idx aggregated) (λ acc.
        and_then (add_values weight values acc)
          (λ acc'. add_client_chunks chunk_size weight chunks (insert chunk_idx acc' aggregated))))

-- sum(self.client_samples.values())
unfoldable pub sum_values : Dict ℕ → ℕ
sum_values [] = 0
sum_values ((k, n) ∷ samples) = n + sum_values samples

-- self.client_samples[fit_res.num_examples] = fit_res.num_examples, for each result.
unfoldable pub record_samples : List ℕ → Dict ℕ → Dict ℕ
record_samples [] samples = samples
record_samples (n ∷ counts) samples = record_samples counts (insert n n samples)

-- {k: struct.pack(...) for k, v in aggregated_chunks.items()}
unfoldable pub pack_chunks : Dict (List ℕ) → Result (Dict Bytes)
pack_chunks [] = ok []
pack_chunks ((k, v) ∷ chunks) =
    and_then (pack_int16s (map pos v))
      (λ bytes. and_then (pack_chunks chunks) (λ rest. ok ((k, bytes) ∷ rest)))

-- The bytes of the ROUND_INIT message.
unfoldable pub round_init_payload : ℕ → ℕ → ℕ → Result Bytes
round_init_payload num_clients num_chunks chunk_size =
    and_then (bytes_of (num_clients ∷ 2 ∷ [])) (λ counts. and_then (pack_uint16 chunk_size) (λ size.
      and_then (pack_uint32 (num_chunks * chunk_size * 2))
        (λ total. ok (counts ++ (size ++ total)))))

module _ (numpy : Numpy) where
  -- A FitRes: num_examples and the arrays of its parameters.
  pub record FitRes : Type 0 where
    pub num_examples : ℕ
    pub ndarrays : List (NdArray numpy)

  -- The fields of ChunkedFedAvg that its methods use; of its bridge, the writers.
  pub record ChunkedFedAvg : Type 0 where
    pub chunk_size : ℕ
    pub current_round : ℕ
    pub client_samples : Dict ℕ
    pub client_chunks : Dict (Dict (Dict (NdArray numpy)))
    pub expected_chunks : Dict ℕ
    pub io : Io

  -- What `configure_fit` does before it calls the method of FedAvg.
  unfoldable pub configure_fit : ℕ → ChunkedFedAvg → ChunkedFedAvg
  configure_fit server_round self = record self {
    current_round = server_round;
    client_samples = [];
    client_chunks = [];
    expected_chunks = [];
  }

  -- The loop over the results.
  unfoldable pub add_results : ℕ → List FitRes → Dict (List ℕ) → Result (Dict (List ℕ))
  add_results chunk_size [] aggregated = ok aggregated
  add_results chunk_size (res ∷ results) aggregated =
      and_then (model_to_chunks numpy chunk_size res.ndarrays) (λ client_chunks.
        and_then (add_client_chunks chunk_size res.num_examples client_chunks aggregated)
          (λ aggregated'. add_results chunk_size results aggregated'))

  -- The weighted sums of all the chunks, divided by the total weight.
  unfoldable pub average_results : ℕ → ℕ → ℕ → List FitRes → Result (Dict (List ℕ))
  average_results chunk_size num_chunks total_weight results =
      and_then (add_results chunk_size results (zero_chunks 0 num_chunks chunk_size))
        (λ sums. ok (if ltb 0 total_weight then scale (mod_inv total_weight) sums else sums))

  -- writer.write(bytes); await writer.drain()
  abbrev send_bytes : (ℕ → Bool) → ℕ → Bytes → Exec ChunkedFedAvg Unit
  send_bytes lost writer bytes s = (
    if lost writer then err connection_reset else ok tt,
    record s { io = record s.io { sent = s.io.sent ++ ((writer, bytes) ∷ []) } },
  )

  unfoldable pub send_round_init : (ℕ → Bool) → ℕ → ℕ → Exec ChunkedFedAvg Unit
  send_round_init lost num_clients num_chunks = do
    self ← gets (λ s. s)
    payload ← lift (round_init_payload num_clients num_chunks self.chunk_size)
    header ← lift (build_header MsgType.round_init self.current_round 0 0 (length payload))
    for_each self.io.client_writers (λ entry. send_bytes lost entry.1 (header ++ payload))

  -- The parameters and the number of clients of the metrics; without results both are missing.
  unfoldable pub aggregate_fit :
      (ℕ → Bool) → List FitRes → Exec ChunkedFedAvg (Option (List (NdArray numpy)) × Option ℕ)
  aggregate_fit lost [] = pure (none, none)
  aggregate_fit lost (first ∷ others) = do
    modify (λ s. record s {
      client_samples = record_samples (map (λ r. r.num_examples) (first ∷ others)) s.client_samples;
    })
    self ← gets (λ s. s)
    model_chunks ← lift (model_to_chunks numpy self.chunk_size first.ndarrays)
    modify (λ s. record s {
      expected_chunks = map (λ entry. (entry.0, length model_chunks)) s.client_samples;
    })
    send_round_init lost (length (first ∷ others)) (length model_chunks)
    aggregated ← lift (
        average_results self.chunk_size (length model_chunks) (sum_values self.client_samples)
          (first ∷ others))
    packed ← lift (pack_chunks aggregated)
    arrays ← lift (chunks_to_model numpy self.chunk_size packed first.ndarrays)
    pure (some arrays, some (length (first ∷ others)))

  unfoldable pub process_chunked_update :
      ℕ → ℕ → ℕ → NdArray numpy → ChunkedFedAvg → Bool × ChunkedFedAvg
  process_chunked_update round_id client_id chunk_index chunk_data self =
      let clients = get_default round_id [] self.client_chunks in
      let chunks = get_default client_id [] clients in
      let chunks' = insert chunk_index chunk_data chunks in
      let expected = get_default client_id 0 self.expected_chunks in
      (
        length chunks' == expected,
        record self {
          client_chunks = insert round_id (insert client_id chunks' clients) self.client_chunks;
        },
      )
