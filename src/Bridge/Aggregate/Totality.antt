-- ===== src/Bridge/Aggregate/Totality.antt =====
-- `_finalize_aggregation` raises nothing on a well-formed round, but for the undefined name.
use dropout.Prelude.{
  ℕ, zero, suc, ◌+◌, ◌*◌, ◌/◌, ◌%◌, ◌≤◌, ◌<◌, ◌≡◌, refl, ap, ◌∙◌, arith, Bool, true, false, ◌||◌,
  some, List, [], ◌∷◌, ltb, leb, ◌==◌, if◌then◌else◌, inl, inr, Bool-cases, map, replicate, length,
  length-replicate, All,
}
use dropout.Prelude.Int.{ℤ, pos, ◌+ℤ◌, ◌*ℤ◌, ◌%ℤ◌}
use dropout.Prelude.Dict.{Dict, lookup, insert, keys, AllValues, AllValues-lookup, lookup-keys}
use dropout.Prelude.Exec.{ok, err, name_error}
use dropout.Bytes.{Bytes}
use dropout.Bytes.Int16.{unpack_int16s_total}
use dropout.Field.{residue-lt}
use dropout.Field.Shape.{IsField, IsShaped, insert-IsShaped, IsField-replicate}
use dropout.Bridge.State.{ClientState, RoundState, round_complete}
use dropout.Bridge.Aggregate.{
  elem, num_chunks_of, zero_chunks, add_values, chunk_of, add_chunk, add_chunks, weight_of,
  add_client, add_survivors, dropout_is_recovered, add_dropouts, scale, average, total_samples,
  finalize_aggregation,
}
use dropout.Shamir.{mod_inv}

-- Every chunk that was received has two bytes for each element.
abbrev pub ChunksFit : ℕ → ClientState → Type 0
ChunksFit chunk_size c =
    AllValues (λ (chunk : Bytes). length chunk ≡ 2 * chunk_size) c.received_chunks

add_values_total :
    (weight : ℕ) (values : List ℤ) (acc : List ℕ)
    → length values ≡ length acc
    → (out : List ℕ) × (add_values weight values acc ≡ ok out)
      × (length out ≡ length acc)
      × IsField out
unfolding add_values
add_values_total w [] [] h = ([], refl, refl, tt)
add_values_total w [] (a ∷ acc) h = absurd (omega arith)
add_values_total w (v ∷ vs) [] h = absurd (omega arith)
add_values_total w (v ∷ vs) (a ∷ acc) h =
    let (out, e, l, f) = add_values_total w vs acc (omega arith) in
    (
      ((pos a +ℤ v *ℤ pos w) %ℤ 3329) ∷ out,
      rw e refl,
      ap suc l,
      (residue-lt (pos a +ℤ v *ℤ pos w), f),
    )

chunk_of-eq :
    (k : ℕ) (chunks : Dict (List ℕ)) (acc : List ℕ)
    → lookup k chunks ≡ some acc
    → chunk_of k chunks ≡ ok acc
unfolding chunk_of
chunk_of-eq k chunks acc at = ground arith

module _ (nc ce : ℕ) where
  add_chunk_total :
      (weight k : ℕ) (chunk : Bytes) (chunks : Dict (List ℕ))
      → length chunk ≡ 2 * ce
      → IsShaped nc ce chunks
      → (chunks' : Dict (List ℕ)) × (add_chunk nc ce weight k chunk chunks ≡ ok chunks')
        × IsShaped nc ce chunks'
  unfolding add_chunk
  add_chunk_total weight k chunk chunks fits h = elim (Bool-cases (leb nc k)) [
    | inl past ↦ (chunks, rw past refl, h)
    | inr present ↦
        let (values, u, lv) = unpack_int16s_total ce chunk fits in
        let (acc, at, la, fa) = h k (ground arith) in
        let (out, e, lo, fo) = add_values_total weight values acc (omega arith) in
        (
          insert k out chunks,
          rw (present, u, chunk_of-eq k chunks acc at, e) refl,
          insert-IsShaped nc ce k out chunks (lo ∙ la) fo h,
        )
  ]

  add_chunks_total :
      (weight : ℕ) (received : Dict Bytes) (chunks : Dict (List ℕ))
      → AllValues (λ (chunk : Bytes). length chunk ≡ 2 * ce) received
      → IsShaped nc ce chunks
      → (chunks' : Dict (List ℕ)) × (add_chunks nc ce weight received chunks ≡ ok chunks')
        × IsShaped nc ce chunks'
  unfolding add_chunks
  add_chunks_total weight [] chunks fits h = (chunks, refl, h)
  add_chunks_total weight ((k, chunk) ∷ received) chunks fits h =
      let (mid, e, hm) = add_chunk_total weight k chunk chunks fits.0 h in
      let (out, e', ho) = add_chunks_total weight received mid fits.1 hm in (out, rw e e', ho)

  add_survivor_total :
      (dropped : Bool) (c : ClientState) (chunks : Dict (List ℕ))
      → ChunksFit ce c
      → IsShaped nc ce chunks
      → (chunks' : Dict (List ℕ)) × ((if dropped
            then ok chunks
            else add_client nc ce (some c) chunks)
          ≡ ok chunks')
        × IsShaped nc ce chunks'
  unfolding add_client
  add_survivor_total true c chunks fits h = (chunks, refl, h)
  add_survivor_total false c chunks fits h = elim (Bool-cases c.completed) [
    | inl e ↦ rw e (add_chunks_total (weight_of c) c.received_chunks chunks fits h)
    | inr e ↦ (chunks, rw e refl, h)
  ]

  add_survivors_total :
      (round : RoundState) (ids : List ℕ) (chunks : Dict (List ℕ))
      → AllValues (ChunksFit ce) round.clients
      → All (λ k. (c : ClientState) × (lookup k round.clients ≡ some c)) ids
      → IsShaped nc ce chunks
      → (chunks' : Dict (List ℕ)) × (add_survivors nc ce round ids chunks ≡ ok chunks')
        × IsShaped nc ce chunks'
  unfolding add_survivors
  add_survivors_total round [] chunks fits known h = (chunks, refl, h)
  add_survivors_total round (cid ∷ ids) chunks fits ((c, at), known) h =
      let (mid, e, hm) =
        add_survivor_total (elem cid round.dropout_clients) c chunks
          (AllValues-lookup (ChunksFit ce) cid round.clients fits at) h in
      let (out, e', ho) = add_survivors_total round ids mid fits known hm in
      (out, rw (at, e) e', ho)

zero_chunks-IsShaped :
    (i left ce k : ℕ)
    → i ≤ k
    → k < i + left
    → (l : List ℕ) × (lookup k (zero_chunks i left ce) ≡ some l) × (length l ≡ ce) × IsField l
unfolding zero_chunks lookup
zero_chunks-IsShaped i zero ce k lo hi = absurd (omega arith)
zero_chunks-IsShaped i (suc left) ce k lo hi = elim (Bool-cases (i == k)) [
  | inl e ↦ (replicate ce 0, rw e refl, length-replicate ce 0, IsField-replicate ce)
  | inr e ↦ rw e (zero_chunks-IsShaped (suc i) left ce k (ground arith) (omega arith))
]

lookup-scale :
    (inv : ℕ) (d : Dict (List ℕ)) (k : ℕ) (l : List ℕ)
    → lookup k d ≡ some l
    → lookup k (scale inv d) ≡ some (map (λ x. x * inv % 3329) l)
unfolding scale lookup
lookup-scale inv [] k l e = cc
lookup-scale inv ((j, m) ∷ d) k l e = ground (arith, lookup-scale inv d k l)

scale_list :
    (inv : ℕ) (l : List ℕ)
    → (length (map (λ x. x * inv % 3329) l) ≡ length l) × IsField (map (λ x. x * inv % 3329) l)
scale_list inv [] = (refl, tt)
scale_list inv (x ∷ l) = let (len, f) = scale_list inv l in (ap suc len, (omega arith, f))

average-IsShaped :
    (total nc ce : ℕ) (chunks : Dict (List ℕ))
    → IsShaped nc ce chunks
    → IsShaped nc ce (average total chunks)
average-IsShaped total nc ce chunks h k lt = elim (Bool-cases (ltb 1 total)) [
  | inl many ↦
      let (l, at, len, f) = h k lt in
      let inv = mod_inv total in
      let (len', f') = scale_list inv l in
      (map (λ x. x * inv % 3329) l, rw many (lookup-scale inv chunks k l at), len' ∙ len, f')
  | inr few ↦ rw few (h k lt)
]

-- Whether a dropped client has a secret.
abbrev pub any_recovered : Dict ClientState → List ℕ → Bool
any_recovered clients [] = false
any_recovered clients (k ∷ ids) =
    dropout_is_recovered (lookup k clients) || any_recovered clients ids

add_dropouts_cases :
    (round : RoundState) (ids : List ℕ) (chunks : Dict (List ℕ))
    → add_dropouts round ids chunks
      ≡ (if any_recovered round.clients ids then err name_error else ok chunks)
unfolding add_dropouts
add_dropouts_cases round [] chunks = refl
add_dropouts_cases round (k ∷ ids) chunks = ground (arith, add_dropouts_cases round ids chunks)

module _ (round : RoundState) (positive : 0 < round.chunk_size)
    (fit : AllValues (ChunksFit round.chunk_size) round.clients) where
  abbrev nc : ℕ
  nc = round.model_size / round.chunk_size

  summed :
      (chunks : Dict (List ℕ)) × (add_survivors nc round.chunk_size round
          (keys round.clients)
          (zero_chunks 0 nc round.chunk_size)
        ≡ ok chunks)
      × IsShaped nc round.chunk_size chunks
  summed =
      add_survivors_total nc round.chunk_size round (keys round.clients)
        (zero_chunks 0 nc round.chunk_size) fit (lookup-keys round.clients)
        (λ k lt. zero_chunks-IsShaped 0 nc round.chunk_size k (omega arith) (omega arith))

  counted : num_chunks_of round.model_size round.chunk_size ≡ ok nc
  unfolding num_chunks_of
  counted = ground arith

  -- On a round with a positive chunk size whose received chunks all have its length, and in which
  -- no dropped client has a secret, the aggregation returns: the round is complete, and every chunk
  -- has `chunk_size` elements, each below 3329.
  pub finalize_aggregation_total :
      any_recovered round.clients round.dropout_clients ≡ false
      → (round' : RoundState) × (finalize_aggregation round ≡ ok round')
        × IsShaped (round.model_size / round.chunk_size) round.chunk_size round'.unmasked_chunks
        × (round'.stage ≡ round_complete)
  unfolding finalize_aggregation
  finalize_aggregation_total none_recovered =
      let (chunks, e, h) = summed in
      (
        record round {
          unmasked_chunks = average (total_samples round.clients) chunks;
          stage = round_complete;
        },
        rw (counted, e, add_dropouts_cases, none_recovered) refl,
        average-IsShaped (total_samples round.clients) nc round.chunk_size chunks h,
        refl,
      )

  -- On such a round in which a dropped client has a secret, it raises NameError.
  pub finalize_aggregation_name_error :
      any_recovered round.clients round.dropout_clients ≡ true
      → finalize_aggregation round ≡ err name_error
  unfolding finalize_aggregation
  finalize_aggregation_name_error recovered =
      let (chunks, e, h) = summed in rw (counted, e, add_dropouts_cases, recovered)
