-- ===== src/Baselines/Kdf.antt =====
-- The key exchange, the key derivation and the masks of experiments/baselines.py. What it calls of
-- the cryptography library are parameters; `available` is CLASSICAL_CRYPTO_AVAILABLE.
pub mod Agreement
pub mod Examples
use dropout.Prelude.{ℕ, Bool, List, [], ◌∷◌, ◌++◌, replicate, if◌then◌else◌}
use dropout.Prelude.Exec.{Result, ok, err, runtime_error, and_then}
use dropout.Bytes.{Bytes, bytes_of, to_bytes2, to_bytes4}
use dropout.Platform.{Platform, KeyExchange, Hkdf}
use dropout.Kdf.Labels.{pairwise_mask, stream_mask, shamir_secret}
use dropout.Kdf
use dropout.Masks
use dropout.Classical.Keys.{session_key}

-- A private key is the number of the call of generate() that made it.
pub record ClassicalKeyPair : Type 0 where
  pub private_key : ℕ
  pub public_key : Bytes

module _ (available : Bool) (x : KeyExchange) where
  unfoldable pub classical_keypair : ℕ → Result ClassicalKeyPair
  classical_keypair call =
      if available
      then ok (record { private_key = call; public_key = x.public_bytes call })
      else err runtime_error

  unfoldable pub classical_ecdh : ℕ → Bytes → Result Bytes
  classical_ecdh private_key peer_public_key =
      if available then x.exchange private_key peer_public_key else err runtime_error

module _ (hkdf : Hkdf) where
  -- salt if salt else 32 zero bytes
  unfoldable pub hkdf_extract : Bytes → Bytes → Result Bytes
  hkdf_extract [] ikm = hkdf.derive 32 (replicate 32 0) [] ikm
  hkdf_extract (b ∷ salt) ikm = hkdf.derive 32 (b ∷ salt) [] ikm

  unfoldable pub hkdf_expand : Bytes → Bytes → ℕ → Result Bytes
  hkdf_expand prk info len = hkdf.derive len [] info prk

  unfoldable pub derive_session_key : Bytes → Bytes → Bytes → Result Bytes
  derive_session_key shared_secret salt info =
      and_then (hkdf_extract salt shared_secret) (λ prk. hkdf_expand prk (info ++ session_key) 32)

  unfoldable pub derive_pairwise_seed : Bytes → ℕ → ℕ → ℕ → Result Bytes
  derive_pairwise_seed shared_secret client_a client_b round_id =
      and_then (bytes_of (client_a ∷ client_b ∷ [])) (λ clients.
        and_then (to_bytes4 round_id) (λ round.
          and_then (hkdf_extract [] shared_secret)
            (λ prk. hkdf_expand prk (pairwise_mask ++ (clients ++ round)) 32)))

  unfoldable pub derive_stream_seed : Bytes → ℕ → ℕ → ℕ → Result Bytes
  derive_stream_seed shared_secret client_id round_id chunk_index =
      and_then (bytes_of (client_id ∷ [])) (λ client. and_then (to_bytes4 round_id) (λ round.
        and_then (to_bytes2 chunk_index) (λ chunk.
          and_then (hkdf_extract [] shared_secret)
            (λ prk. hkdf_expand prk (stream_mask ++ (client ++ (round ++ chunk))) 32))))

  unfoldable pub derive_shamir_secret : Bytes → ℕ → ℕ → Result Bytes
  derive_shamir_secret shared_secret client_id round_id =
      and_then (bytes_of (client_id ∷ [])) (λ client. and_then (to_bytes4 round_id) (λ round.
        and_then (hkdf_extract [] shared_secret)
          (λ prk. hkdf_expand prk (shamir_secret ++ (client ++ round)) 32)))

module _ (platform : Platform) where
  abbrev pub aes_ctr_stream : Bytes → Bytes → ℕ → Result Bytes
  aes_ctr_stream = Kdf.aes_ctr_stream platform

  abbrev pub generate_mask_from_seed : Bytes → ℕ → Result (List ℕ)
  generate_mask_from_seed = Masks.generate_mask_from_seed platform
