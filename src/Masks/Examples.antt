-- ===== src/Masks/Examples.antt =====
-- The masks at concrete numbers, over the sample platform.
use dropout.Prelude.{ℕ, ◌≡◌, refl, arith, true, false, List, [], ◌∷◌, length, replicate}
use dropout.Prelude.Int.{◌+ℤ◌}
use dropout.Prelude.Dict.{Dict}
use dropout.Prelude.Exec.{ok}
use dropout.Field.Shape.{IsField, IsShaped}
use dropout.Samples.{sample_platform}
use dropout.Kdf.{aes_ctr_stream, bridge_aes_ctr_stream}
use dropout.Masks.{
  mask_from_stream, add_peer_mask, generate_mask_from_seed, bridge_generate_mask_from_seed,
  recover_dropped_client_masks,
}
use dropout.Masks.Shape.{add_peer_mask_cancels, bridge_generate_mask-empty, generate_mask_shape}
use dropout.Masks.Totality.{recover_dropped_client_masks_total}

added : add_peer_mask true (3000 ∷ 5 ∷ []) (1000 ∷ 7 ∷ []) ≡ ok (671 ∷ 12 ∷ [])
unfolding add_peer_mask ◌+ℤ◌
added = refl

add_peer_mask_cancels_example :
    add_peer_mask false (671 ∷ 12 ∷ []) (1000 ∷ 7 ∷ []) ≡ ok (3000 ∷ 5 ∷ [])
add_peer_mask_cancels_example =
    add_peer_mask_cancels true (3000 ∷ 5 ∷ []) (1000 ∷ 7 ∷ []) (671 ∷ 12 ∷ [])
      (omega arith, (omega arith, tt)) added

bridge_mask : bridge_generate_mask_from_seed sample_platform (replicate 32 1) 4 ≡ ok []
unfolding bridge_generate_mask_from_seed bridge_aes_ctr_stream mask_from_stream
bridge_mask = refl

bridge_generate_mask-empty_example : ◌≡◌ {A = List ℕ} [] []
bridge_generate_mask-empty_example =
    bridge_generate_mask-empty sample_platform (replicate 32 1) 4 [] bridge_mask

mask : generate_mask_from_seed sample_platform (replicate 32 1) 4 ≡ ok (0 ∷ 0 ∷ [])
unfolding generate_mask_from_seed aes_ctr_stream mask_from_stream
mask = refl

mask_shape : (length {A = ℕ} (0 ∷ 0 ∷ []) ≡ 2) × IsField (0 ∷ 0 ∷ [])
mask_shape = generate_mask_shape sample_platform (replicate 32 1) 2 (0 ∷ 0 ∷ []) mask

recover_dropped_client_masks_total_example :
    (masks : Dict (List ℕ)) × (recover_dropped_client_masks sample_platform
        (1 ∷ 2 ∷ [])
        7
        (1 ∷ 2 ∷ [])
        3
        4
        2
      ≡ ok masks)
    × IsShaped 4 2 masks
recover_dropped_client_masks_total_example =
    recover_dropped_client_masks_total sample_platform refl (λ key msg h. (msg, refl)) 7 3
      (omega arith) (omega arith) (1 ∷ 2 ∷ []) (1 ∷ 2 ∷ []) 4 2 (omega arith, (omega arith, tt))
      (omega arith)
