-- ===== src/Platform.antt =====
-- The libraries that the server calls and that are not in this repository, as one parameter. Its
-- laws are documented behaviour: HMAC-SHA256 gives 32 bytes, and AES in counter mode is a stream
-- cipher, so that the output is as long as the input.
use dropout.Prelude.{ℕ, ◌≡◌, Bool, length}
use dropout.Prelude.Exec.{Result, ok}
use dropout.Bytes.{Bytes}

-- OQS_AVAILABLE: True, False and None.
pub data KemLibrary : Type 0 where
  oqs pqcrypto unavailable : KemLibrary

pub record Platform : Type 0 where
  -- hmac.new(key, msg, hashlib.sha256).digest()
  pub hmac_sha256 : Bytes → Bytes → Bytes
  pub length-hmac_sha256 : (key msg : Bytes) → length (hmac_sha256 key msg) ≡ 32
  pub crypto_available : Bool
  -- AES in counter mode over a key, a nonce and a message; a bad key or nonce raises.
  pub aes_ctr : Bytes → Bytes → Bytes → Result Bytes
  pub length-aes_ctr :
      (key nonce msg out : Bytes) → aes_ctr key nonce msg ≡ ok out → length out ≡ length msg
  -- encap_secret of oqs and encapsulate of pqcrypto, at the n-th draw of randomness: the
  -- ciphertext and the shared secret.
  pub kem_library : KemLibrary
  pub encap_secret : ℕ → Bytes → Result (Bytes × Bytes)
  pub pq_encapsulate : ℕ → Bytes → Result (Bytes × Bytes)
  -- The state of the connections while a handler runs: writer.is_closing(), and whether
  -- `await writer.drain()` raises ConnectionResetError.
  pub is_closing : ℕ → Bool
  pub connection_lost : ℕ → Bool

-- X25519 and HKDF-SHA256 of the cryptography library, which the classical server and the mock client
-- use. A private key is the number of the call of X25519PrivateKey.generate() that made it.
pub record KeyExchange : Type 0 where
  -- private_key.public_key().public_bytes_raw()
  pub public_bytes : ℕ → Bytes
  pub length-public_bytes : (key : ℕ) → length (public_bytes key) ≡ 32
  -- private_key.exchange(X25519PublicKey.from_public_bytes(data)); bad data raises.
  pub exchange : ℕ → Bytes → Result Bytes
  pub exchange_agrees : (m n : ℕ) → exchange m (public_bytes n) ≡ exchange n (public_bytes m)
  -- HKDF(algorithm=SHA256(), length=32, salt=b"", info=info).derive(key_material)
  pub derive : Bytes → Bytes → Bytes
  pub length-derive : (info key_material : Bytes) → length (derive info key_material) ≡ 32

-- HKDF(algorithm=SHA256(), length=length, salt=salt, info=info).derive(key_material) of the
-- cryptography library, which experiments/baselines.py uses; too great a length raises.
pub record Hkdf : Type 0 where
  pub derive : ℕ → Bytes → Bytes → Bytes → Result Bytes

-- os.urandom(n), at the n-th call.
pub record Urandom : Type 0 where
  pub urandom : ℕ → ℕ → Bytes
  pub length-urandom : (call n : ℕ) → length (urandom call n) ≡ n
