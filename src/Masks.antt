-- ===== src/Masks.antt =====
-- Mask streams and the recovery of a dropped client's masks: generate_mask_from_seed and the
-- recover_... functions of host_server/shamir_recovery.py.
pub mod Shape
pub mod Totality
pub mod Examples
use dropout.Prelude.{
  ℕ, zero, suc, ◌+◌, ◌*◌, ◌%◌, ◌^◌, Bool, true, false, Option, none, some, List, [], ◌∷◌, ltb,
  if◌then◌else◌, replicate, bit_or,
}
use dropout.Prelude.Int.{pos, ◌+ℤ◌, ◌-ℤ◌, ◌%ℤ◌}
use dropout.Prelude.Dict.{Dict, lookup, insert}
use dropout.Prelude.Exec.{Result, ok, err, index_error, key_error, and_then}
use dropout.Bytes.{Bytes}
use dropout.Field.{field_modulus}
use dropout.Platform.{Platform}
use dropout.Kdf.{
  derive_pairwise_mask_seed, derive_stream_mask_seed, aes_ctr_stream, bridge_aes_ctr_stream,
}
use Prim.Native.Nat.{min, max}

-- The loop over `range(0, len(stream), 2)`: two bytes to a mask, the last byte alone if it is odd.
unfoldable pub mask_from_stream : Bytes → List ℕ
mask_from_stream [] = []
mask_from_stream (b ∷ []) = (b % field_modulus) ∷ []
mask_from_stream (lo ∷ hi ∷ rest) = (bit_or lo (hi * 2 ^ 8) % field_modulus) ∷ mask_from_stream rest

-- combined[i] = (combined[i] + sign * peer_mask[i]) % FIELD_MODULUS, for each i of `combined`.
pub add_peer_mask : Bool → List ℕ → List ℕ → Result (List ℕ)
add_peer_mask positive [] mask = ok []
add_peer_mask positive (c ∷ combined) [] = err index_error
add_peer_mask positive (c ∷ combined) (m ∷ mask) =
    and_then (add_peer_mask positive combined mask)
      (λ rest. ok (((if positive then pos c +ℤ pos m else pos c -ℤ pos m) %ℤ field_modulus) ∷ rest))

-- pairwise_seeds[peer]
seed_of : ℕ → Dict Bytes → Result Bytes
seed_of peer seeds = elim (lookup peer seeds) [ none ↦ err key_error | some seed ↦ ok seed ]

module _ (platform : Platform) where
  unfoldable pub generate_mask_from_seed : Bytes → ℕ → Result (List ℕ)
  generate_mask_from_seed seed len =
      and_then (aes_ctr_stream platform seed (replicate 16 0) len)
        (λ stream. ok (mask_from_stream stream))

  -- ProtocolBridge._generate_mask_from_seed
  unfoldable pub bridge_generate_mask_from_seed : Bytes → ℕ → Result (List ℕ)
  bridge_generate_mask_from_seed seed len =
      and_then (bridge_aes_ctr_stream platform seed (replicate 16 0) len)
        (λ stream. ok (mask_from_stream stream))

  pub recover_dropped_client_pairwise_seeds :
      Bytes → ℕ → List ℕ → ℕ → Dict Bytes → Result (Dict Bytes)
  recover_dropped_client_pairwise_seeds secret round_id [] dropped seeds = ok seeds
  recover_dropped_client_pairwise_seeds secret round_id (peer ∷ peers) dropped seeds =
      and_then
        (derive_pairwise_mask_seed platform secret (min dropped peer) (max dropped peer) round_id)
        (λ seed.
          recover_dropped_client_pairwise_seeds secret round_id peers dropped
            (insert peer seed seeds))

  -- The loop over the peers for one chunk.
  pub combine_peer_masks : ℕ → ℕ → ℕ → ℕ → Dict Bytes → List ℕ → List ℕ → Result (List ℕ)
  unfolding seed_of
  combine_peer_masks round_id dropped chunk_idx chunk_bytes seeds [] combined = ok combined
  combine_peer_masks round_id dropped chunk_idx chunk_bytes seeds (peer ∷ peers) combined =
      and_then (seed_of peer seeds) (λ seed.
        and_then (derive_stream_mask_seed platform seed dropped round_id chunk_idx) (λ stream_seed.
          and_then (generate_mask_from_seed stream_seed chunk_bytes) (λ peer_mask.
            and_then (add_peer_mask (ltb dropped peer) combined peer_mask) (λ combined'.
              combine_peer_masks round_id dropped chunk_idx chunk_bytes seeds peers combined'))))

  -- The loop over the chunks, from `chunk_idx` on, with the chunks that are left to do.
  pub recover_chunks :
      ℕ → ℕ → List ℕ → ℕ → Dict Bytes → ℕ → ℕ → Dict (List ℕ) → Result (Dict (List ℕ))
  recover_chunks round_id dropped peers chunk_size seeds chunk_idx zero masks = ok masks
  recover_chunks round_id dropped peers chunk_size seeds chunk_idx (suc left) masks =
      and_then
        (combine_peer_masks round_id dropped chunk_idx (chunk_size * 2) seeds peers
          (replicate chunk_size 0))
        (λ combined.
          recover_chunks round_id dropped peers chunk_size seeds (suc chunk_idx) left
            (insert chunk_idx combined masks))

  pub recover_dropped_client_masks : Bytes → ℕ → List ℕ → ℕ → ℕ → ℕ → Result (Dict (List ℕ))
  recover_dropped_client_masks secret round_id peers dropped num_chunks chunk_size =
      and_then (recover_dropped_client_pairwise_seeds secret round_id peers dropped [])
        (λ seeds. recover_chunks round_id dropped peers chunk_size seeds 0 num_chunks [])
