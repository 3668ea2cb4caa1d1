-- ===== src/Client/Examples.antt =====
-- A mock client beside the sample servers.
use dropout.Prelude.{◌≡◌, refl, arith, false, some, [], ◌++◌, replicate}
use dropout.Prelude.Dict.{lookup}
use dropout.Prelude.Exec.{ok}
use dropout.Bytes.{Bytes}
use dropout.Samples.{
  sample_platform, sample_exchange, sample_urandom, sample_bridge, sample_round, second_client,
}
use dropout.Bridge.Handlers.{dispatch_message, handle_client}
use dropout.Classical.Keys.{encapsulate}
use dropout.Client.Session.{on_ciphertext-encapsulate}
use dropout.Client.Chunk.{with_chunk, chunk_request_stored}
use dropout.Client.{RunClient, new_client, on_ciphertext, send_chunk}

abbrev client : RunClient
client = record (new_client 2 9 false) { round_id = 7; chunk_size = 2 }

-- The secret that the keys 4 and 9 share.
abbrev secret : Bytes
secret = replicate 32 13

encapsulated :
    encapsulate sample_exchange 4 (sample_exchange.public_bytes 9)
    ≡ ok (sample_exchange.public_bytes 4, secret)
unfolding encapsulate
encapsulated = refl

on_ciphertext-encapsulate_example :
    (shared : Bytes) × ((sample_exchange.exchange 4 (sample_exchange.public_bytes 9) ≡ ok shared)
      × (on_ciphertext sample_platform sample_exchange sample_urandom
            (sample_exchange.public_bytes 4)
            client
          ≡ (ok tt, record client { shared_secret = some shared; session_key = some secret })))
on_ciphertext-encapsulate_example =
    on_ciphertext-encapsulate sample_platform sample_exchange sample_urandom 4
      (sample_exchange.public_bytes 4) secret client refl encapsulated

known : lookup 7 sample_bridge.rounds ≡ some sample_round
unfolding lookup
known = refl

member : lookup 2 sample_round.clients ≡ some second_client
unfolding lookup
member = refl

chunk_request_stored_example :
    (s' : RunClient) × ((send_chunk sample_platform sample_exchange sample_urandom 1 secret client
        ≡ (ok tt, s'))
      × ((payload : Bytes) × ((bytes : Bytes) × ((s'.sent ≡ [] ++ bytes)
              × (handle_client (dispatch_message sample_platform) bytes 5 sample_bridge
                  ≡ (ok tt, with_chunk 7 2 1 payload sample_round second_client sample_bridge))))))
chunk_request_stored_example =
    chunk_request_stored sample_platform sample_exchange sample_urandom refl
      (λ key msg h. (msg, refl)) 1 5 secret client sample_bridge sample_round second_client
      (omega arith) (omega arith) (omega arith) (omega arith) refl known member refl
