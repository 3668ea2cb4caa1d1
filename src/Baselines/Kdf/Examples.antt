-- ===== src/Baselines/Kdf/Examples.antt =====
-- The seeds of a shared secret, with HKDF over the HMAC of the sample platform.
use dropout.Prelude.{ℕ, ◌≡◌, refl, [], length, replicate, leb, true, arith, if◌then◌else◌}
use dropout.Prelude.Exec.{ok, err, value_error}
use dropout.Bytes.{Bytes}
use dropout.Platform.{Hkdf}
use dropout.Kdf
use dropout.Kdf.Standard.{prk_of, okm_of}
use dropout.Samples.{sample_platform}
use dropout.Baselines.Kdf.{
  hkdf_extract, derive_pairwise_seed, derive_stream_seed, derive_shamir_secret,
}
use dropout.Baselines.Kdf.Agreement.{IsHkdf, baseline_seeds}

-- RFC 5869, which has no output of more than 255 blocks.
abbrev sample_hkdf : Hkdf
sample_hkdf = record {
  derive = λ len salt info ikm.
      if leb len 8160
      then ok (okm_of sample_platform (prk_of sample_platform salt ikm) info len)
      else err value_error;
}

sample_hkdf-IsHkdf : IsHkdf sample_platform sample_hkdf
sample_hkdf-IsHkdf len salt info ikm short =
    let fits : leb len 8160 ≡ true = ground arith in rw fits refl

abbrev shared : Bytes
shared = replicate 32 9

baseline_seeds_example :
    (secret : Bytes) × (hkdf_extract sample_hkdf [] shared ≡ ok secret)
    × (length secret ≡ 32)
    × (((a b round_id : ℕ)
          → derive_pairwise_seed sample_hkdf shared a b round_id
            ≡ Kdf.derive_pairwise_mask_seed sample_platform secret a b round_id)
        × (((client_id round_id chunk_index : ℕ)
              → derive_stream_seed sample_hkdf shared client_id round_id chunk_index
                ≡ Kdf.derive_stream_mask_seed sample_platform secret client_id round_id chunk_index)
            × ((client_id round_id : ℕ)
                → derive_shamir_secret sample_hkdf shared client_id round_id
                  ≡ Kdf.derive_shamir_secret sample_platform secret client_id round_id)))
baseline_seeds_example = baseline_seeds sample_platform sample_hkdf sample_hkdf-IsHkdf shared
