-- ===== src/Kdf/Derive.antt =====
-- Every derived key has 32 bytes, whenever the numbers fit the fields of its label.
use dropout.Prelude.{ℕ, ◌<◌, ◌≡◌, arith, [], length, lt→ltb}
use dropout.Prelude.Exec.{Result, ok}
use dropout.Bytes.{Bytes, bytes_of, to_bytes2, to_bytes4}
use dropout.Platform.{Platform}
use dropout.Kdf.{
  hkdf_extract, hkdf_expand, derive_pairwise_mask_seed, derive_stream_mask_seed,
  derive_shamir_secret,
}
use dropout.Kdf.Expand.{length-hkdf_expand}

-- A key of 32 bytes.
abbrev pub GivesKey : Result Bytes → Type 0
GivesKey r = (out : Bytes) × (r ≡ ok out) × (length out ≡ 32)

module _ (platform : Platform) (secret : Bytes) where
  key_of_info :
      (info : Bytes) → GivesKey (hkdf_expand platform (hkdf_extract platform [] secret) info 32)
  key_of_info info =
      length-hkdf_expand platform (hkdf_extract platform [] secret) info 32 (omega arith)

  pub derive_shamir_secret_total :
      (client_id round_id : ℕ)
      → client_id < 256
      → round_id < 4294967296
      → GivesKey (derive_shamir_secret platform secret client_id round_id)
  unfolding derive_shamir_secret bytes_of to_bytes4
  derive_shamir_secret_total client_id round_id hc hr =
      rw (lt→ltb client_id 256 hc, lt→ltb round_id 4294967296 hr) (key_of_info _)

  pub derive_pairwise_mask_seed_total :
      (a b round_id : ℕ)
      → a < 256
      → b < 256
      → round_id < 4294967296
      → GivesKey (derive_pairwise_mask_seed platform secret a b round_id)
  unfolding derive_pairwise_mask_seed bytes_of to_bytes4
  derive_pairwise_mask_seed_total a b round_id ha hb hr =
      rw (lt→ltb a 256 ha, lt→ltb b 256 hb, lt→ltb round_id 4294967296 hr) (key_of_info _)

  pub derive_stream_mask_seed_total :
      (client_id round_id chunk_index : ℕ)
      → client_id < 256
      → round_id < 4294967296
      → chunk_index < 65536
      → GivesKey (derive_stream_mask_seed platform secret client_id round_id chunk_index)
  unfolding derive_stream_mask_seed bytes_of to_bytes2 to_bytes4
  derive_stream_mask_seed_total client_id round_id chunk_index hc hr hk =
      rw (lt→ltb client_id 256 hc, lt→ltb round_id 4294967296 hr, lt→ltb chunk_index 65536 hk)
        (key_of_info _)
