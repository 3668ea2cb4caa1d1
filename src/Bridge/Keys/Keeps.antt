-- ===== src/Bridge/Keys/Keeps.antt =====
-- What key setup keeps true of the state: a property that new secrets and seeds of the clients, the
-- connections and the stage leave alone.
use dropout.Prelude.{ℕ, ◌≡◌, refl, Bool, Option, none, some, List, [], ◌∷◌}
use dropout.Prelude.Dict.{Dict, lookup}
use dropout.Prelude.Exec.{ok, err, key_error, Exec, modify, for_each, continue, ◌>>=◌, ◌>>◌}
use dropout.Prelude.Exec.Keeps.{Keeps, Keeps-bind, Keeps-continue, Keeps-for_each, keeps_rules}
use dropout.Bytes.{Bytes}
use dropout.Platform.{Platform}
use dropout.Bridge.State.{ClientState, Session, Io, Stage, mask_setup, set_client, client_at}
use dropout.Bridge.Keys.{
  encapsulate_by, encapsulate, send_to_client, establish_secret, establish_if, setup_client,
  setup_pair, set_pairwise_seed, store_pair_seed, orchestrate_pair, for_each_pair,
  orchestrate_pairwise_kem, derive_seed_for, derive_seeds_of, setup_keys_and_masks,
}

-- `Fact` is what `P` says of the client under a number, `Secret` what is known of a new secret.
pub record IsKeyInvariant (P : Session → Type 0) (Fact : ℕ → ClientState → Type 0)
    (Secret : Bytes → Type 0) : Type 0 where
  pub found :
      (k : ℕ) (c : ClientState) (s : Session) → P s → lookup k s.round.clients ≡ some c → Fact k c
  pub set_secret :
      (k : ℕ) (c : ClientState) (secret : Bytes) (s : Session)
      → Secret secret
      → Fact k c
      → P s
      → P (set_client k (record c { shared_secret = some secret }) s)
  pub set_seeds :
      (k : ℕ) (c : ClientState) (seeds : Dict Bytes) (s : Session)
      → Fact k c
      → P s
      → P (set_client k (record c { pairwise_seeds = seeds }) s)
  pub set_io : (io : Io) (s : Session) → P s → P (record s { io = io })
  pub set_stage :
      (stage : Stage) (s : Session)
      → P s
      → P (record s { round = record s.round { stage = stage } })

-- What follows the first loop of `_setup_keys_and_masks`.
unfoldable pub after_clients : Platform → List ℕ → Exec Session Unit
after_clients platform ids = do
  for_each_pair platform ids (setup_pair platform)
  orchestrate_pairwise_kem platform
  for_each ids (derive_seeds_of platform ids)
  modify (λ s. record s { round = record s.round { stage = mask_setup } })

-- What the platform's encapsulation says of the secrets that it draws.
abbrev pub Draws : Platform → (Bytes → Type 0) → Type 0
Draws platform Secret =
    (draw : ℕ) (key ct secret : Bytes)
    → encapsulate_by platform platform.kem_library draw key ≡ ok (ct, secret)
    → Secret secret

module _ (platform : Platform) {P : Session → Type 0} {Fact : ℕ → ClientState → Type 0}
    {Secret : Bytes → Type 0} (inv : IsKeyInvariant P Fact Secret)
    (draws : Draws platform Secret) where
  Keeps-secret :
      (k : ℕ) (c : ClientState) (secret : Bytes)
      → Secret secret
      → Fact k c
      → Keeps P (modify (set_client k (record c { shared_secret = some secret })))
  Keeps-secret k c secret new f = record { at = λ s h. inv.set_secret k c secret s new f h }

  Keeps-seeds :
      (k : ℕ) (c : ClientState) (seeds : Dict Bytes)
      → Fact k c
      → Keeps P (modify (set_client k (record c { pairwise_seeds = seeds })))
  Keeps-seeds k c seeds f = record { at = λ s h. inv.set_seeds k c seeds s f h }

  Keeps-client_at :
      {B : Type 0} (k : ℕ) (f : ClientState → Exec Session B)
      → ((c : ClientState) → Fact k c → Keeps P (f c))
      → Keeps P (client_at k >>= f)
  Keeps-client_at {B = B} k f keep = record { at = λ s h. go s h (lookup k s.round.clients) refl }
    where
      go :
          (s : Session)
          → P s
          → (o : Option ClientState) → lookup k s.round.clients ≡ o
          → P (continue {B = B} (elim o [ none ↦ err key_error | some c ↦ ok c ]) f s).1
      go s h none e = h
      go s h (some c) e = (keep c (inv.found k c s h e)).at s h

  Keeps-stage : Keeps P (modify (λ s. record s { round = record s.round { stage = mask_setup } }))
  Keeps-stage = record { at = λ s h. inv.set_stage mask_setup s h }

  Keeps-encapsulate :
      {B : Type 0} (key : Bytes) (f : Bytes × Bytes → Exec Session B)
      → ((ct secret : Bytes) → Secret secret → Keeps P (f (ct, secret)))
      → Keeps P (encapsulate platform key >>= f)
  unfolding encapsulate
  Keeps-encapsulate key f keep = record {
    at = λ s h.
        Keeps-continue P (encapsulate_by platform platform.kem_library s.io.draws key) f _
          (inv.set_io _ s h)
          (λ a e. (keep a.0 a.1 (draws s.io.draws key a.0 a.1 e)).at _ (inv.set_io _ s h));
  }

  pub send_to_client-Keeps :
      (client_id : ℕ) (bytes : Bytes) → Keeps P (send_to_client platform client_id bytes)
  unfolding send_to_client
  send_to_client-Keeps client_id bytes = record {
    at = λ s h. go s h (lookup client_id s.io.client_writers) refl;
  }
    where
      go :
          (s : Session)
          → P s
          → (o : Option ℕ) → lookup client_id s.io.client_writers ≡ o
          → P (send_to_client platform client_id bytes s).1
      go s h none e = rw (send_to_client, e) h
      go s h (some writer) e = rw (send_to_client, e) (inv.set_io _ s h)

  establish_secret-Keeps : (k : ℕ) → Keeps P (establish_secret platform k)
  unfolding establish_secret
  establish_secret-Keeps k =
      search (keeps_rules, Keeps-secret, Keeps-client_at, Keeps-encapsulate, send_to_client-Keeps)
        depth 9

  ruleset secret_rules = (keeps_rules, Keeps-seeds, Keeps-client_at, establish_secret-Keeps)

  establish_if-Keeps : (b : Bool) (k : ℕ) → Keeps P (establish_if platform b k)
  unfolding establish_if
  establish_if-Keeps b k = search secret_rules

  pub setup_client-Keeps : (k : ℕ) → Keeps P (setup_client platform k)
  unfolding setup_client
  setup_client-Keeps k = search (secret_rules, establish_if-Keeps)

  setup_pair-Keeps : (a b : ℕ) → Keeps P (setup_pair platform a b)
  unfolding setup_pair
  setup_pair-Keeps a b = search (secret_rules, establish_if-Keeps) depth 12

  set_pairwise_seed-Keeps :
      (k peer : ℕ) (seed : Bytes) → Keeps P (set_pairwise_seed platform k peer seed)
  unfolding set_pairwise_seed
  set_pairwise_seed-Keeps k peer seed = search secret_rules

  store_pair_seed-Keeps : (i r : ℕ) → Keeps P (store_pair_seed platform i r)
  unfolding store_pair_seed
  store_pair_seed-Keeps i r = search (secret_rules, set_pairwise_seed-Keeps) depth 12

  orchestrate_pair-Keeps : (a b : ℕ) → Keeps P (orchestrate_pair platform a b)
  unfolding orchestrate_pair
  orchestrate_pair-Keeps a b =
      search (secret_rules, establish_if-Keeps, store_pair_seed-Keeps) depth 12

  for_each_pair-Keeps :
      (ids : List ℕ) (body : ℕ → ℕ → Exec Session Unit)
      → ((a b : ℕ) → Keeps P (body a b))
      → Keeps P (for_each_pair platform ids body)
  unfolding for_each_pair
  for_each_pair-Keeps [] body keep = search keeps_rules
  for_each_pair-Keeps (a ∷ ids) body keep =
      Keeps-bind _ _ (Keeps-for_each ids (body a) (keep a)) (λ _. for_each_pair-Keeps ids body keep)

  orchestrate_pairwise_kem-Keeps : Keeps P (orchestrate_pairwise_kem platform)
  unfolding orchestrate_pairwise_kem
  orchestrate_pairwise_kem-Keeps = search (keeps_rules, for_each_pair-Keeps, orchestrate_pair-Keeps)

  derive_seed_for-Keeps : (k peer : ℕ) → Keeps P (derive_seed_for platform k peer)
  unfolding derive_seed_for
  derive_seed_for-Keeps k peer = search (secret_rules, set_pairwise_seed-Keeps) depth 12

  derive_seeds_of-Keeps : (ids : List ℕ) (k : ℕ) → Keeps P (derive_seeds_of platform ids k)
  unfolding derive_seeds_of
  derive_seeds_of-Keeps ids k = search (secret_rules, derive_seed_for-Keeps)

  pub after_clients-Keeps : (ids : List ℕ) → Keeps P (after_clients platform ids)
  unfolding after_clients
  after_clients-Keeps ids =
      search
        (
          keeps_rules, for_each_pair-Keeps, setup_pair-Keeps, orchestrate_pairwise_kem-Keeps,
          derive_seeds_of-Keeps, Keeps-stage,
        )
        depth 12

  -- `_setup_keys_and_masks`.
  pub setup_keys_and_masks-Keeps : Keeps P (setup_keys_and_masks platform)
  unfolding setup_keys_and_masks after_clients
  setup_keys_and_masks-Keeps =
      search (keeps_rules, setup_client-Keeps, after_clients-Keeps) depth 12
