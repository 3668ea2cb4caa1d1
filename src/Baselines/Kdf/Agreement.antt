-- ===== src/Baselines/Kdf/Agreement.antt =====
-- The key derivation of experiments/baselines.py against that of host_server/shamir_recovery.py.
use dropout.Prelude.{ℕ, ◌≡◌, ◌≤◌, refl, sym, ◌∙◌, arith, [], ◌∷◌, ◌++◌, length, replicate}
use dropout.Prelude.Exec.{Result, ok, err, and_then}
use dropout.Bytes.{Bytes, bytes_of, to_bytes2, to_bytes4}
use dropout.Platform.{Platform, Hkdf}
use dropout.Kdf
use dropout.Kdf.Expand.{length-hkdf_expand}
use dropout.Kdf.Standard.{prk_of, okm_of, hkdf_expand-okm_of, hkdf_extract-prk_of}
use dropout.Kdf.Labels.{pairwise_mask, stream_mask, shamir_secret}
use dropout.Baselines.Kdf.{
  hkdf_extract, hkdf_expand, derive_pairwise_seed, derive_stream_seed, derive_shamir_secret,
}

and_then-same {ℓ κ} :
    {A : Type ℓ} {B : Type κ} (r : Result A) (f g : A → Result B)
    → ((a : A) → f a ≡ g a)
    → and_then r f ≡ and_then r g
and_then-same (ok a) f g h = h a
and_then-same (err e) f g h = refl

-- The library's HKDF is that of RFC 5869, over the HMAC of the platform.
abbrev pub IsHkdf : Platform → Hkdf → Type 0
IsHkdf platform hkdf =
    (len : ℕ) (salt info ikm : Bytes)
    → len ≤ 8160
    → hkdf.derive len salt info ikm ≡ ok (okm_of platform (prk_of platform salt ikm) info len)

module _ (platform : Platform) (hkdf : Hkdf) (is_hkdf : IsHkdf platform hkdf) where
  -- The library against the key derivation of the server.
  derive-eq :
      (salt info ikm : Bytes)
      → hkdf.derive 32 salt info ikm
        ≡ Kdf.hkdf_expand platform (Kdf.hkdf_extract platform salt ikm) info 32
  derive-eq salt info ikm =
      let extracts = hkdf_extract-prk_of platform salt ikm in
      let expands = hkdf_expand-okm_of platform (prk_of platform salt ikm) info 32 (omega arith) in
      rw extracts (is_hkdf 32 salt info ikm (omega arith) ∙ sym expands)

  extract_eq :
      (shared : Bytes) → hkdf_extract hkdf [] shared ≡ hkdf.derive 32 (replicate 32 0) [] shared
  unfolding hkdf_extract
  extract_eq shared = refl

  expand-eq :
      (shared secret info : Bytes)
      → hkdf_extract hkdf [] shared ≡ ok secret
      → and_then (hkdf_extract hkdf [] shared) (λ prk. hkdf_expand hkdf prk info 32)
        ≡ Kdf.hkdf_expand platform (Kdf.hkdf_extract platform [] secret) info 32
  unfolding hkdf_expand
  expand-eq shared secret info h = rw h (derive-eq [] info secret)

  -- Where the HKDF of the library is that of RFC 5869: for every shared secret hkdf_extract
  -- of the baselines returns another of 32 bytes, from which the key derivation of the server gives the
  -- seeds and the Shamir secret that the baselines derive from the first, exceptions included.
  pub baseline_seeds :
      (shared : Bytes)
      → (secret : Bytes) × (hkdf_extract hkdf [] shared ≡ ok secret)
        × (length secret ≡ 32)
        × (((a b round_id : ℕ)
              → derive_pairwise_seed hkdf shared a b round_id
                ≡ Kdf.derive_pairwise_mask_seed platform secret a b round_id)
            × (((client_id round_id chunk_index : ℕ)
                  → derive_stream_seed hkdf shared client_id round_id chunk_index
                    ≡ Kdf.derive_stream_mask_seed platform secret client_id round_id chunk_index)
                × ((client_id round_id : ℕ)
                    → derive_shamir_secret hkdf shared client_id round_id
                      ≡ Kdf.derive_shamir_secret platform secret client_id round_id)))
  unfolding derive_pairwise_seed derive_stream_seed derive_shamir_secret
      Kdf.derive_pairwise_mask_seed Kdf.derive_stream_mask_seed Kdf.derive_shamir_secret
  baseline_seeds shared =
      let prk = Kdf.hkdf_extract platform (replicate 32 0) shared in
      let (secret, run, size) = length-hkdf_expand platform prk [] 32 (omega arith) in
      let extracted = derive-eq (replicate 32 0) [] shared ∙ run in
      let expands =
        λ (info : Bytes). expand-eq shared secret info (extract_eq shared ∙ extracted) in
      (
        secret,
        extract_eq shared ∙ extracted,
        size,
        (
          λ a b r. and_then-same (bytes_of (a ∷ b ∷ [])) _ _ (λ clients.
              and_then-same (to_bytes4 r) _ _
                (λ round. expands (pairwise_mask ++ (clients ++ round)))),
          (
            λ c r k. and_then-same (bytes_of (c ∷ [])) _ _ (λ client.
                and_then-same (to_bytes4 r) _ _ (λ round.
                  and_then-same (to_bytes2 k) _ _
                    (λ chunk. expands (stream_mask ++ (client ++ (round ++ chunk)))))),
            λ c r. and_then-same (bytes_of (c ∷ [])) _ _ (λ client.
                and_then-same (to_bytes4 r) _ _
                  (λ round. expands (shamir_secret ++ (client ++ round)))),
          ),
        ),
      )
