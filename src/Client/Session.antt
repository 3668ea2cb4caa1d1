-- ===== src/Client/Session.antt =====
-- The key that the mock client of host_server/mock_client.py agrees on with the classical server of
-- host_server/baseline_server.py.
use dropout.Prelude.{ℕ, ◌≡◌, ap, ◌∙◌, true, some}
use dropout.Prelude.Exec.{ok, and_then-eq-ok, ok_injective}
use dropout.Bytes.{Bytes}
use dropout.Platform.{Platform, KeyExchange, Urandom}
use dropout.Classical.Keys.{encapsulate}
use dropout.Client.{RunClient, on_ciphertext}

module _ (platform : Platform) (x : KeyExchange) (random : Urandom) where
  -- Where cryptography is installed: when `_encapsulate` of the classical server returns for the
  -- public key of a client, the client that is sent the ciphertext returns too, with the secret of
  -- the server as its session key. Its own shared secret is what the exchange gave, before the key
  -- derivation.
  pub on_ciphertext-encapsulate :
      (draw : ℕ) (ct ss : Bytes) (s : RunClient)
      → platform.crypto_available ≡ true
      → encapsulate x draw (x.public_bytes s.private_key) ≡ ok (ct, ss)
      → (shared : Bytes) × ((x.exchange draw (x.public_bytes s.private_key) ≡ ok shared)
          × (on_ciphertext platform x random ct s
              ≡ (ok tt, record s { shared_secret = some shared; session_key = some ss })))
  unfolding encapsulate on_ciphertext
  on_ciphertext-encapsulate draw ct ss s on h =
      let (shared, e, h1) = and_then-eq-ok (x.exchange draw (x.public_bytes s.private_key)) _ h in
      let ct_is : x.public_bytes draw ≡ ct = ap (λ (p : Bytes × Bytes). p.0) (ok_injective h1) in
      let ss_is : x.derive _ shared ≡ ss = ap (λ (p : Bytes × Bytes). p.1) (ok_injective h1) in
      let agreed = x.exchange_agrees s.private_key draw ∙ e in
      (shared, (e, rw (on, ← ct_is, agreed, ss_is)))
