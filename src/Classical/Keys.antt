-- ===== src/Classical/Keys.antt =====
-- Keys and masks of host_server/baseline_server.py: an X25519 exchange in place of the key
-- encapsulation, and otherwise the methods of host_server/protocol_bridge.py.
use dropout.Prelude.{ℕ, List, [], ◌∷◌, true, replicate}
use dropout.Prelude.Exec.{Result, Exec, ok, and_then}
use dropout.Bytes.{Bytes}
use dropout.Platform.{Platform, KeyExchange, oqs}
use dropout.Kdf
use dropout.Masks.{mask_from_stream}
use dropout.Bridge.State.{Session}
use dropout.Bridge.Keys

-- b"FL-SessionKey-v1"
abbrev pub session_key : Bytes
session_key =
    70 ∷ 76 ∷ 45 ∷ 83 ∷ 101 ∷ 115 ∷ 115 ∷ 105 ∷ 111 ∷ 110 ∷ 75 ∷ 101 ∷ 121 ∷ 45 ∷ 118 ∷ 49 ∷ []

-- `_encapsulate`: a fresh private key, whose public key is the ciphertext, and the secret that is
-- derived from its exchange with the key of the client.
unfoldable pub encapsulate : KeyExchange → ℕ → Bytes → Result (Bytes × Bytes)
encapsulate x draw pubkey =
    and_then (x.exchange draw pubkey)
      (λ shared. ok (x.public_bytes draw, x.derive session_key shared))

-- What the class calls: this `_encapsulate`, and a cryptography library that is there.
abbrev pub classical : KeyExchange → Platform → Platform
classical x platform = record platform {
  kem_library = oqs;
  encap_secret = encapsulate x;
  crypto_available = true;
}

module _ (x : KeyExchange) (platform : Platform) where
  abbrev pub hkdf_extract : Bytes → Bytes → Bytes
  hkdf_extract = Kdf.hkdf_extract (classical x platform)

  abbrev pub hkdf_expand : Bytes → Bytes → ℕ → Result Bytes
  hkdf_expand = Kdf.hkdf_expand (classical x platform)

  abbrev pub derive_pairwise_seed : Bytes → ℕ → ℕ → ℕ → Result Bytes
  derive_pairwise_seed = Kdf.derive_pairwise_mask_seed (classical x platform)

  abbrev pub derive_stream_seed : Bytes → ℕ → ℕ → ℕ → Result Bytes
  derive_stream_seed = Kdf.derive_stream_mask_seed (classical x platform)

  abbrev pub derive_shamir_secret : Bytes → ℕ → ℕ → Result Bytes
  derive_shamir_secret = Kdf.derive_shamir_secret (classical x platform)

  -- The literal that is repeated is empty here too, and nothing checks for the library.
  unfoldable pub aes_ctr_stream : Bytes → Bytes → ℕ → Result Bytes
  aes_ctr_stream key nonce len = platform.aes_ctr key nonce []

  unfoldable pub generate_mask_from_seed : Bytes → ℕ → Result (List ℕ)
  generate_mask_from_seed seed len =
      and_then (aes_ctr_stream seed (replicate 16 0) len) (λ stream. ok (mask_from_stream stream))

  abbrev pub orchestrate_pairwise_kem : Exec Session Unit
  orchestrate_pairwise_kem = Keys.orchestrate_pairwise_kem (classical x platform)

  abbrev pub setup_keys_and_masks : Exec Session Unit
  setup_keys_and_masks = Keys.setup_keys_and_masks (classical x platform)
