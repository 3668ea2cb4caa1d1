-- ===== src/Incoming/Keys.antt =====
-- Keys and masks on the lower side of the merge in host_server/protocol_bridge.py: the methods of
-- the upper side but for `_aes_ctr_stream`, which encrypts `length` bytes here.
use dropout.Prelude.{ℕ, List, replicate, if◌then◌else◌}
use dropout.Prelude.Exec.{Result, Exec, ok, err, runtime_error, and_then}
use dropout.Bytes.{Bytes}
use dropout.Platform.{Platform}
use dropout.Kdf
use dropout.Masks.{mask_from_stream}
use dropout.Bridge.State.{Session}
use dropout.Bridge.Keys

module _ (platform : Platform) where
  abbrev pub hkdf_extract : Bytes → Bytes → Bytes
  hkdf_extract = Kdf.hkdf_extract platform

  abbrev pub hkdf_expand : Bytes → Bytes → ℕ → Result Bytes
  hkdf_expand = Kdf.hkdf_expand platform

  abbrev pub derive_pairwise_seed : Bytes → ℕ → ℕ → ℕ → Result Bytes
  derive_pairwise_seed = Kdf.derive_pairwise_mask_seed platform

  abbrev pub derive_stream_seed : Bytes → ℕ → ℕ → ℕ → Result Bytes
  derive_stream_seed = Kdf.derive_stream_mask_seed platform

  abbrev pub derive_shamir_secret : Bytes → ℕ → ℕ → Result Bytes
  derive_shamir_secret = Kdf.derive_shamir_secret platform

  abbrev pub encapsulate : Bytes → Exec Session (Bytes × Bytes)
  encapsulate = Keys.encapsulate platform

  -- The literal that is repeated holds one byte of value 0.
  unfoldable pub aes_ctr_stream : Bytes → Bytes → ℕ → Result Bytes
  aes_ctr_stream key nonce len =
      if platform.crypto_available
      then platform.aes_ctr key nonce (replicate len 0)
      else err runtime_error

  unfoldable pub generate_mask_from_seed : Bytes → ℕ → Result (List ℕ)
  generate_mask_from_seed seed len =
      and_then (aes_ctr_stream seed (replicate 16 0) len) (λ stream. ok (mask_from_stream stream))

  abbrev pub orchestrate_pairwise_kem : Exec Session Unit
  orchestrate_pairwise_kem = Keys.orchestrate_pairwise_kem platform

  abbrev pub setup_keys_and_masks : Exec Session Unit
  setup_keys_and_masks = Keys.setup_keys_and_masks platform
