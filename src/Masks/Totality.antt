-- ===== src/Masks/Totality.antt =====
-- The recovery of all the masks of a dropped client returns, with masks of the right shape.
use dropout.Prelude.{
  ℕ, zero, suc, ◌+◌, ◌*◌, ◌<◌, ◌≤◌, ◌≡◌, refl, sym, ◌∙◌, arith, true, some, List, [], ◌∷◌, ◌==◌,
  ==-refl, ltb, length, replicate, length-replicate, All, Bool-cases, inl, inr,
}
use dropout.Prelude.Dict.{Dict, lookup, insert, lookup-insert}
use dropout.Prelude.Exec.{ok}
use dropout.Bytes.{Bytes}
use dropout.Field.Shape.{IsField, IsShaped, insert_next-IsShaped, IsField-replicate}
use dropout.Platform.{Platform}
use dropout.Kdf.{aes_ctr_stream}
use dropout.Kdf.Derive.{derive_pairwise_mask_seed_total, derive_stream_mask_seed_total}
use dropout.Masks.{
  mask_from_stream, generate_mask_from_seed, recover_dropped_client_pairwise_seeds, seed_of,
  combine_peer_masks, recover_chunks, recover_dropped_client_masks,
}
use Prim.Native.Nat.{min, max}
use dropout.Masks.Shape.{mask_from_stream_shape, add_peer_mask_total}

module _ (platform : Platform) where
  open platform use {aes_ctr, length-aes_ctr, crypto_available}

  abbrev HasSeed : Dict Bytes → ℕ → Type 0
  HasSeed seeds k = (seed : Bytes) × (lookup k seeds ≡ some seed) × (length seed ≡ 32)

  -- A working library, a round and clients whose numbers fit their fields.
  module _ (on : crypto_available ≡ true)
      (cipher : (key msg : Bytes)
        → length key ≡ 32
        → (out : Bytes) × (aes_ctr key (replicate 16 0) msg ≡ ok out))
      (round_id dropped : ℕ) (round_fits : round_id < 4294967296)
      (dropped_fits : dropped < 256) where
    pub generate_mask_total :
        (seed : Bytes) (n : ℕ)
        → length seed ≡ 32
        → (mask : List ℕ) × (generate_mask_from_seed platform seed (n * 2) ≡ ok mask)
          × (length mask ≡ n)
    unfolding generate_mask_from_seed aes_ctr_stream
    generate_mask_total seed n h =
        let (stream, e) = cipher seed (replicate (n * 2) 0) h in
        let long = length-aes_ctr seed (replicate 16 0) (replicate (n * 2) 0) stream e in
        (
          mask_from_stream stream,
          rw (on, e) refl,
          (mask_from_stream_shape n stream (long ∙ length-replicate (n * 2) 0)).0,
        )

    pairwise_seeds_total :
        (secret : Bytes) (peers : List ℕ) (seeds : Dict Bytes)
        → All (λ k. k < 256) peers
        → (seeds' : Dict Bytes) × (recover_dropped_client_pairwise_seeds platform secret round_id
              peers dropped seeds
            ≡ ok seeds')
          × ((k : ℕ) → HasSeed seeds k → HasSeed seeds' k)
          × All (HasSeed seeds') peers
    unfolding recover_dropped_client_pairwise_seeds
    pairwise_seeds_total secret [] seeds h = (seeds, refl, (λ k g. g), tt)
    pairwise_seeds_total secret (peer ∷ peers) seeds h =
        let (seed, e, l) =
          derive_pairwise_mask_seed_total platform secret (min dropped peer) (max dropped peer)
            round_id (omega arith) (omega arith) round_fits in
        let (seeds', run, keep, all) =
          pairwise_seeds_total secret peers (insert peer seed seeds) h.1 in
        (
          seeds',
          rw e run,
          (λ k g. keep k (kept k seed seeds l g)),
          (keep peer (kept_new seed seeds l), all),
        )
      where
        kept :
            (k : ℕ) (seed : Bytes) (seeds : Dict Bytes)
            → length seed ≡ 32
            → HasSeed seeds k
            → HasSeed (insert peer seed seeds) k
        kept k seed seeds l (old, at, lo) = elim (Bool-cases (peer == k)) [
          | inl e ↦ (seed, lookup-insert peer k seed seeds ∙ rw e, l)
          | inr e ↦ (old, lookup-insert peer k seed seeds ∙ rw e at, lo)
        ]

        kept_new :
            (seed : Bytes) (seeds : Dict Bytes)
            → length seed ≡ 32
            → HasSeed (insert peer seed seeds) peer
        kept_new seed seeds l = (seed, lookup-insert peer peer seed seeds ∙ rw ==-refl, l)

    seed_of-eq :
        (peer : ℕ) (seeds : Dict Bytes) (seed : Bytes)
        → lookup peer seeds ≡ some seed
        → seed_of peer seeds ≡ ok seed
    unfolding seed_of
    seed_of-eq peer seeds seed at = ground arith

    combine_peer_masks_total :
        (chunk_idx chunk_size : ℕ) (seeds : Dict Bytes) (peers combined : List ℕ)
        → chunk_idx < 65536
        → All (HasSeed seeds) peers
        → length combined ≡ chunk_size
        → IsField combined
        → (out : List ℕ) × (combine_peer_masks platform round_id dropped chunk_idx
              (chunk_size * 2)
              seeds
              peers
              combined
            ≡ ok out)
          × (length out ≡ chunk_size)
          × IsField out
    unfolding combine_peer_masks
    combine_peer_masks_total chunk_idx size seeds [] combined hk hs l f = (combined, refl, l, f)
    combine_peer_masks_total chunk_idx size seeds (peer ∷ peers) combined hk ((seed, at, ls), hs) l
          f =
        let (stream_seed, e1, l1) =
          derive_stream_mask_seed_total platform seed dropped round_id chunk_idx dropped_fits
            round_fits hk in
        let (mask, e2, l2) = generate_mask_total stream_seed size l1 in
        let (next, e3, l3, f3) =
          add_peer_mask_total (ltb dropped peer) combined mask (l ∙ sym l2) in
        let (out, e4, l4, f4) =
          combine_peer_masks_total chunk_idx size seeds peers next hk hs (l3 ∙ l) f3 in
        (out, rw (seed_of-eq peer seeds seed at, e1, e2, e3) e4, l4, f4)

    recover_chunks_total :
        (peers : List ℕ) (chunk_size : ℕ) (seeds : Dict Bytes) (chunk_idx left : ℕ)
        (masks : Dict (List ℕ))
        → chunk_idx + left ≤ 65536
        → All (HasSeed seeds) peers
        → IsShaped chunk_idx chunk_size masks
        → (masks' : Dict (List ℕ)) × (recover_chunks platform round_id dropped peers chunk_size
              seeds chunk_idx left masks
            ≡ ok masks')
          × IsShaped (chunk_idx + left) chunk_size masks'
    unfolding recover_chunks
    recover_chunks_total peers size seeds idx zero masks hk hs shaped =
        (masks, refl, λ k below. shaped k (omega arith))
    recover_chunks_total peers size seeds idx (suc left) masks hk hs shaped =
        let (out, e, l, f) =
          combine_peer_masks_total idx size seeds peers (replicate size 0) (omega arith) hs
            (length-replicate size 0) (IsField-replicate size) in
        let (masks', run, shaped') =
          recover_chunks_total peers size seeds (suc idx) left (insert idx out masks) (omega arith)
            hs (insert_next-IsShaped idx size out masks l f shaped) in
        (masks', rw e run, λ k below. shaped' k (omega arith))

    -- With the cipher library at work on keys of 32 bytes, and with the numbers of the round, of the
    -- client, of its peers and of the chunks within their fields, the recovery of a dropped client's
    -- masks returns, and has `chunk_size` field elements for every chunk.
    pub recover_dropped_client_masks_total :
        (secret : Bytes) (peers : List ℕ) (num_chunks chunk_size : ℕ)
        → All (λ k. k < 256) peers
        → num_chunks ≤ 65536
        → (masks : Dict (List ℕ)) × (recover_dropped_client_masks platform secret round_id peers
              dropped num_chunks chunk_size
            ≡ ok masks)
          × IsShaped num_chunks chunk_size masks
    unfolding recover_dropped_client_masks
    recover_dropped_client_masks_total secret peers num_chunks chunk_size hp hk =
        let (seeds, e, _, hs) = pairwise_seeds_total secret peers [] hp in
        let (masks, run, shaped) =
          recover_chunks_total peers chunk_size seeds 0 num_chunks [] (omega arith) hs
            (λ k below. absurd (omega arith)) in
        (masks, rw e run, λ k below. shaped k (omega arith))
