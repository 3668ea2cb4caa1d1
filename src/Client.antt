-- ===== src/Client.antt =====
-- The mock client of host_server/mock_client.py: its key derivation, and the loop of `run_client`,
-- which answers the messages of the server.
pub mod Crypto
pub mod Chunk
pub mod Session
pub mod Examples
use dropout.Prelude.{
  ℕ, zero, suc, ◌+◌, ◌*◌, ◌^◌, Bool, true, false, Option, none, some, List, [], ◌∷◌, ◌++◌, bit_or,
  length, map, ◌==◌, if◌then◌else◌,
}
use dropout.Prelude.Int.{ℤ, pos, ◌+ℤ◌, ◌%ℤ◌}
use dropout.Prelude.Exec.{
  Result, Exec, ok, err, index_error, connection_reset, and_then, pure, lift, gets, modify, ◌>>=◌,
  ◌>>◌,
}
use dropout.Bytes.{Bytes, pack_int16s, unpack_int16s}
use dropout.Field.{field_modulus}
use dropout.Platform.{Platform, KeyExchange, Urandom}
use dropout.Wire.{MessageHeader}
use dropout.Flower.{ceil_div}
use dropout.Bridge.Handlers.{byte_at}
use dropout.Bridge.Handlers
use Crypto.{build_header, derive_stream_seed, generate_mask_from_seed, derive_session_key}

-- The local variables of `run_client`. The private key is the number of the call that made it;
-- `connection_lost` says whether `await writer.drain()` raises ConnectionResetError.
pub record RunClient : Type 0 where
  pub client_id : ℕ
  pub private_key : ℕ
  pub round_id : ℕ
  pub chunk_size : ℕ
  pub model_size : ℕ
  pub shared_secret : Option Bytes
  pub session_key : Option Bytes
  pub expected_chunks : ℕ
  pub calls : ℕ
  pub connection_lost : Bool
  pub sent : Bytes

-- The variables before the loop.
abbrev pub new_client : ℕ → ℕ → Bool → RunClient
new_client client_id private_key connection_lost = record {
  client_id = client_id;
  private_key = private_key;
  round_id = 0;
  chunk_size = 128;
  model_size = 1024;
  shared_secret = none;
  session_key = none;
  expected_chunks = 0;
  calls = 0;
  connection_lost = connection_lost;
  sent = [];
}

-- writer.write(data); await writer.drain()
abbrev pub write : Bytes → Exec RunClient Unit
write bytes s =
    (if s.connection_lost then err connection_reset else ok tt, record s { sent = s.sent ++ bytes })

-- The next call of os.urandom.
abbrev pub draw_bytes : Urandom → ℕ → Exec RunClient Bytes
draw_bytes random n s = (ok (random.urandom s.calls n), record s { calls = s.calls + 1 })

-- [(chunk_ints[i] + mask[i]) % 3329 for i in range(chunk_size)]
unfoldable pub mask_values : ℕ → List ℤ → List ℕ → Result (List ℕ)
mask_values zero values mask = ok []
mask_values (suc n) (v ∷ values) (m ∷ mask) =
    and_then (mask_values n values mask) (λ rest. ok (((v +ℤ pos m) %ℤ field_modulus) ∷ rest))
mask_values (suc n) _ _ = err index_error

module _ (platform : Platform) (x : KeyExchange) (random : Urandom) where
  -- The branch for ROUND_INIT: what it sets before an exception stays set.
  unfoldable pub on_round_init : Bytes → Exec RunClient Unit
  on_round_init payload = do
    expected_clients ← lift (byte_at payload 0)
    threshold ← lift (byte_at payload 1)
    c0 ← lift (byte_at payload 2)
    c1 ← lift (byte_at payload 3)
    modify (λ s. record s { chunk_size = bit_or c0 (c1 * 2 ^ 8) })
    m0 ← lift (byte_at payload 4)
    m1 ← lift (byte_at payload 5)
    m2 ← lift (byte_at payload 6)
    m3 ← lift (byte_at payload 7)
    modify (λ s. record s {
      model_size = bit_or (bit_or (bit_or m0 (m1 * 2 ^ 8)) (m2 * 2 ^ 16)) (m3 * 2 ^ 24);
    })
    s ← gets (λ s. s)
    expected ← lift (ceil_div s.model_size s.chunk_size)
    modify (λ s. record s { expected_chunks = expected })
    header ←
        lift (build_header 0x01 s.round_id s.client_id 0 (length (x.public_bytes s.private_key)))
    write (header ++ x.public_bytes s.private_key)

  -- The branch for a KEM ciphertext.
  unfoldable pub on_ciphertext : Bytes → Exec RunClient Unit
  on_ciphertext payload =
      if platform.crypto_available
      then (do
        key ← gets (λ s. s.private_key)
        shared ← lift (x.exchange key payload)
        modify (λ s. record s { shared_secret = some shared })
        modify (λ s. record s { session_key = some (derive_session_key x shared) }))
      else (do
        shared ← draw_bytes random 32
        modify (λ s. record s { shared_secret = some shared })
        key ← draw_bytes random 32
        modify (λ s. record s { session_key = some key }))

  -- The branch for a request of a chunk, for a client with a shared secret.
  unfoldable pub send_chunk : ℕ → Bytes → Exec RunClient Unit
  send_chunk chunk_idx shared_secret = do
    s ← gets (λ s. s)
    stream_seed ← lift (derive_stream_seed platform shared_secret s.client_id s.round_id chunk_idx)
    mask ← lift (generate_mask_from_seed platform stream_seed (s.chunk_size * 2))
    chunk_data ← draw_bytes random (s.chunk_size * 2)
    chunk_ints ← lift (unpack_int16s s.chunk_size chunk_data)
    masked ← lift (mask_values s.chunk_size chunk_ints mask)
    masked_bytes ← lift (pack_int16s (map pos masked))
    header ← lift (build_header 0x21 s.round_id s.client_id chunk_idx (length masked_bytes))
    write (header ++ masked_bytes)

  unfoldable pub on_chunk_request : ℕ → Exec RunClient Unit
  on_chunk_request chunk_idx = do
    secret ← gets (λ s. s.shared_secret)
    elim secret [ none ↦ pure tt | some shared ↦ send_chunk chunk_idx shared ]

  -- The body of the loop, once the message is read.
  unfoldable pub on_message : MessageHeader → Bytes → Exec RunClient Unit
  on_message header payload = do
    modify (λ s. record s { round_id = header.round_id })
    if header.message_type == 0x40
        then on_round_init payload
        else if header.message_type == 0x02
        then on_ciphertext payload
        else if header.message_type == 0x21
        then on_chunk_request header.sequence_number
        else pure tt

  -- The loop over all that the server sends: the end of the stream and a lost connection end it,
  -- any other exception leaves the function.
  unfoldable pub run_client : Bytes → Exec RunClient Unit
  run_client stream =
      Handlers.handle_client (λ header payload writer. on_message header payload) stream 0
