-- ===== src/Samples.antt =====
-- Sample data for the examples: a platform, a round with three clients, and the server that holds it.
use dropout.Prelude.{
  ℕ, ◌≡◌, refl, true, false, some, [], ◌∷◌, replicate, length, length-replicate, get_or, ◌+◌,
}
use dropout.Prelude.Exec.{ok, ok_injective}
use dropout.Bytes.{Bytes}
use dropout.Platform.{Platform, KeyExchange, Urandom, pqcrypto}
use dropout.Bridge.State.{
  ClientState, RoundState, ProtocolBridge, Session, mask_setup, new_client, new_round,
}
use mathlib.Core.Path.{subst}
use native.Mathlib.Nat.{add_comm}

-- A hash of 32 equal bytes, a cipher that leaves the message as it is, an encapsulation that sends
-- its secret back.
abbrev pub sample_platform : Platform
sample_platform = record {
  hmac_sha256 = λ key msg. replicate 32 7;
  length-hmac_sha256 = λ key msg. length-replicate {A = ℕ} 32 7;
  crypto_available = true;
  aes_ctr = λ key nonce msg. ok msg;
  length-aes_ctr =
      λ key nonce msg out h. subst (λ (o : Bytes). length o ≡ length msg) (ok_injective h) refl;
  kem_library = pqcrypto;
  encap_secret = λ draw key. ok (key, key);
  pq_encapsulate = λ draw key. ok (key, key);
  is_closing = λ writer. false;
  connection_lost = λ writer. false;
}

-- The secret that two keys share is their sum, and a hash of 32 equal bytes.
abbrev pub sample_exchange : KeyExchange
sample_exchange = record {
  public_bytes = λ key. replicate 32 key;
  length-public_bytes = λ key. length-replicate {A = ℕ} 32 key;
  exchange = λ key peer. ok ((get_or peer 0 0 + key) ∷ []);
  exchange_agrees = λ m n i. ok (add_comm n m i ∷ []);
  derive = λ info material. replicate 32 (get_or material 0 0);
  length-derive = λ info material. length-replicate {A = ℕ} 32 (get_or material 0 0);
}

-- Random bytes that are all 3.
abbrev pub sample_urandom : Urandom
sample_urandom = record {
  urandom = λ call n. replicate n 3;
  length-urandom = λ call n. length-replicate {A = ℕ} n 3;
}

-- Two samples of weight 2: 5 and -1 in the first chunk, 1 and 2 in the second.
abbrev pub first_client : ClientState
first_client = record (new_client 1 7) {
  public_key = some (1 ∷ []);
  received_chunks = (0, 0 ∷ 5 ∷ 255 ∷ 255 ∷ []) ∷ (1, 0 ∷ 1 ∷ 0 ∷ 2 ∷ []) ∷ [];
  completed = true;
  sample_count = 2;
}

-- Of weight 1: 8 and 4 in the first chunk, none in the second.
abbrev pub second_client : ClientState
second_client = record (new_client 2 7) {
  public_key = some (2 ∷ []);
  received_chunks = (0, 0 ∷ 8 ∷ 0 ∷ 4 ∷ []) ∷ [];
  completed = true;
  sample_count = 1;
}

abbrev pub third_client : ClientState
third_client = record (new_client 3 7) { public_key = some (3 ∷ []) }

-- Three clients, of which the third has dropped out; two chunks of two elements.
abbrev pub sample_round : RoundState
sample_round = record (new_round 7 3 2 2 4) {
  clients = (1, first_client) ∷ (2, second_client) ∷ (3, third_client) ∷ [];
  dropout_clients = 3 ∷ [];
}

abbrev pub sample_session : Session
sample_session = record {
  round = sample_round;
  io = record { client_writers = (1, 4) ∷ (2, 5) ∷ []; sent = []; draws = 0 };
}

abbrev pub sample_bridge : ProtocolBridge
sample_bridge = record {
  rounds = (7, sample_round) ∷ [];
  current_round_id = 7;
  io = sample_session.io;
}

-- A session in which both clients have completed, with empty public keys, and nobody dropped out.
abbrev pub keyless_session : Session
keyless_session = record sample_session {
  round = record (new_round 7 2 2 2 4) {
    clients =
        (1, record first_client { public_key = some [] })
        ∷ (2, record second_client { public_key = some [] })
        ∷ [];
  };
}

-- The same after the key setup.
abbrev pub masked_session : Session
masked_session = record keyless_session {
  round = record keyless_session.round { stage = mask_setup };
}
