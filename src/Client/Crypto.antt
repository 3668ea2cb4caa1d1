-- ===== src/Client/Crypto.antt =====
-- The functions of host_server/mock_client.py around the key derivation, which repeat those of
-- host_server/shamir_recovery.py and host_server/baseline_server.py.
use dropout.Prelude.{ℕ, List}
use dropout.Prelude.Exec.{Result}
use dropout.Bytes.{Bytes}
use dropout.Platform.{Platform, KeyExchange}
use dropout.Kdf
use dropout.Masks
use dropout.Wire.{MessageHeader}
use dropout.Wire
use dropout.Classical.Keys.{session_key}

module _ (platform : Platform) where
  abbrev pub hkdf_extract : Bytes → Bytes → Bytes
  hkdf_extract = Kdf.hkdf_extract platform

  abbrev pub hkdf_expand : Bytes → Bytes → ℕ → Result Bytes
  hkdf_expand = Kdf.hkdf_expand platform

  abbrev pub derive_pairwise_seed : Bytes → ℕ → ℕ → ℕ → Result Bytes
  derive_pairwise_seed = Kdf.derive_pairwise_mask_seed platform

  abbrev pub derive_stream_seed : Bytes → ℕ → ℕ → ℕ → Result Bytes
  derive_stream_seed = Kdf.derive_stream_mask_seed platform

  abbrev pub aes_ctr_stream : Bytes → Bytes → ℕ → Result Bytes
  aes_ctr_stream = Kdf.aes_ctr_stream platform

  abbrev pub generate_mask_from_seed : Bytes → ℕ → Result (List ℕ)
  generate_mask_from_seed = Masks.generate_mask_from_seed platform

module _ (x : KeyExchange) where
  -- The key of a call of generate(), and its public bytes.
  abbrev pub x25519_keypair : ℕ → ℕ × Bytes
  x25519_keypair call = (call, x.public_bytes call)

  abbrev pub x25519_ecdh : ℕ → Bytes → Result Bytes
  x25519_ecdh private_key peer_public_key = x.exchange private_key peer_public_key

  abbrev pub derive_session_key : Bytes → Bytes
  derive_session_key shared_secret = x.derive session_key shared_secret

abbrev pub build_header : ℕ → ℕ → ℕ → ℕ → ℕ → Result Bytes
build_header = Wire.build_header

abbrev pub parse_header : Bytes → Result MessageHeader
parse_header = Wire.parse_header
