-- ===== src/Kdf.antt =====
-- Key derivation: hkdf_extract, hkdf_expand, the derive_... functions and aes_ctr_stream of
-- host_server/shamir_recovery.py, which host_server/protocol_bridge.py repeats.
pub mod Labels
pub mod Expand
pub mod Standard
pub mod Derive
pub mod Examples
use dropout.Prelude.{
  ℕ, zero, suc, Bool, List, [], ◌∷◌, ◌++◌, ltb, if◌then◌else◌, length, take, replicate,
}
use dropout.Prelude.Exec.{Result, ok, err, runtime_error, and_then}
use dropout.Bytes.{Bytes, bytes_of, to_bytes2, to_bytes4}
use dropout.Platform.{Platform}
use Labels.{pairwise_mask, stream_mask, shamir_secret}

module _ (platform : Platform) where
  open platform use {hmac_sha256, aes_ctr, crypto_available}

  -- `if not salt: salt = bytes(32)`
  unfoldable pub hkdf_extract : Bytes → Bytes → Bytes
  hkdf_extract [] ikm = hmac_sha256 (replicate 32 0) ikm
  hkdf_extract (b ∷ salt) ikm = hmac_sha256 (b ∷ salt) ikm

  -- The `while` loop; each round adds 32 bytes, so `length` rounds of fuel are enough.
  pub expand_loop : ℕ → Bytes → Bytes → ℕ → Bytes → Bytes → ℕ → Result Bytes
  expand_loop zero prk info len okm t ctr = ok okm
  expand_loop (suc fuel) prk info len okm t ctr =
      let round = and_then (bytes_of (ctr ∷ [])) (λ c.
        let t' = hmac_sha256 prk (t ++ (info ++ c)) in
        expand_loop fuel prk info len (okm ++ t') t' (suc ctr)) in
      if ltb (length okm) len then round else ok okm

  unfoldable pub hkdf_expand : Bytes → Bytes → ℕ → Result Bytes
  unfolding expand_loop
  hkdf_expand prk info len =
      and_then (expand_loop len prk info len [] [] 1) (λ okm. ok (take len okm))

  unfoldable pub derive_pairwise_mask_seed : Bytes → ℕ → ℕ → ℕ → Result Bytes
  derive_pairwise_mask_seed shared_secret client_a client_b round_id =
      and_then (bytes_of (client_a ∷ client_b ∷ [])) (λ clients.
        and_then (to_bytes4 round_id) (λ round.
          hkdf_expand (hkdf_extract [] shared_secret) (pairwise_mask ++ (clients ++ round)) 32))

  unfoldable pub derive_stream_mask_seed : Bytes → ℕ → ℕ → ℕ → Result Bytes
  derive_stream_mask_seed shared_secret client_id round_id chunk_index =
      and_then (bytes_of (client_id ∷ [])) (λ client. and_then (to_bytes4 round_id) (λ round.
        and_then (to_bytes2 chunk_index) (λ chunk.
          hkdf_expand (hkdf_extract [] shared_secret) (stream_mask ++ (client ++ (round ++ chunk)))
            32)))

  -- ProtocolBridge._derive_shamir_secret
  unfoldable pub derive_shamir_secret : Bytes → ℕ → ℕ → Result Bytes
  derive_shamir_secret shared_secret client_id round_id =
      and_then (bytes_of (client_id ∷ [])) (λ client. and_then (to_bytes4 round_id) (λ round.
        hkdf_expand (hkdf_extract [] shared_secret) (shamir_secret ++ (client ++ round)) 32))

  -- The key stream of `len` bytes: the encryption of that many zero bytes.
  unfoldable pub aes_ctr_stream : Bytes → Bytes → ℕ → Result Bytes
  aes_ctr_stream key nonce len =
      if crypto_available then aes_ctr key nonce (replicate len 0) else err runtime_error

  -- ProtocolBridge._aes_ctr_stream, where the byte that is repeated is missing: b"" * length.
  unfoldable pub bridge_aes_ctr_stream : Bytes → Bytes → ℕ → Result Bytes
  bridge_aes_ctr_stream key nonce len =
      if crypto_available then aes_ctr key nonce [] else err runtime_error
