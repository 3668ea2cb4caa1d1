-- ===== src/Bridge/Keys.antt =====
-- Key setup: _encapsulate, _orchestrate_pairwise_kem and _setup_keys_and_masks.
pub mod Keeps
pub mod Fits
pub mod Secured
pub mod Total
pub mod Seeds
pub mod Examples
use dropout.Prelude.{
  ℕ, zero, suc, ◌+◌, Bool, true, false, not, ◌&&◌, ◌||◌, Option, none, some, List, [], ◌∷◌, ◌++◌,
  ltb, ◌==◌, if◌then◌else◌, length,
}
use dropout.Prelude.Dict.{Dict, lookup, insert, keys}
use dropout.Prelude.Exec.{
  Result, Exec, ok, err, runtime_error, value_error, pure, lift, gets, modify, for_each, and_then,
  ◌>>=◌, ◌>>◌,
}
use dropout.Bytes.{Bytes}
use dropout.Platform.{Platform, KemLibrary, oqs, pqcrypto, unavailable}
use dropout.Wire.{build_header}
use dropout.Wire.MsgType
use dropout.Kdf.{derive_pairwise_mask_seed}
use dropout.Bridge.State.{
  ClientState, RoundState, Io, Session, mask_setup, is_set, set_client, client_at, send,
}
use Prim.Native.Nat.{min, max}

module _ (platform : Platform) where
  open platform use {kem_library, encap_secret, pq_encapsulate, connection_lost}

  pub encapsulate_by : KemLibrary → ℕ → Bytes → Result (Bytes × Bytes)
  encapsulate_by oqs draw pubkey = encap_secret draw pubkey
  encapsulate_by pqcrypto draw pubkey = pq_encapsulate draw pubkey
  encapsulate_by unavailable draw pubkey = err runtime_error

  -- `_encapsulate` at the next draw of randomness.
  pub encapsulate : Bytes → Exec Session (Bytes × Bytes)
  unfolding encapsulate_by
  encapsulate pubkey s = (
    encapsulate_by kem_library s.io.draws pubkey,
    record s { io = record s.io { draws = s.io.draws + 1 } },
  )

  -- if writer: writer.write(data); await writer.drain()
  pub send_to_client : ℕ → Bytes → Exec Session Unit
  send_to_client client_id bytes s = elim (lookup client_id s.io.client_writers) [
    | none ↦ (ok tt, s)
    | some writer ↦ send connection_lost writer bytes s
  ]

  -- `_encapsulate(state.public_key)`, where `public_key` is set whenever the code comes here.
  key_of : Option Bytes → Result Bytes
  key_of none = err value_error
  key_of (some key) = ok key

  -- The block that the code repeats for a client with no shared secret: encapsulate, store the
  -- secret, and send the ciphertext if the client has a writer.
  pub establish_secret : ℕ → Exec Session Unit
  unfolding encapsulate send_to_client key_of
  establish_secret client_id = do
    c ← client_at client_id
    key ← lift (key_of c.public_key)
    (ct, ss) ← encapsulate key
    modify (set_client client_id (record c { shared_secret = some ss }))
    round_id ← gets (λ s. s.round.round_id)
    header ← lift (build_header MsgType.kem_ciphertext round_id 0 0 (length ct))
    send_to_client client_id (header ++ ct)

  pub establish_if : Bool → ℕ → Exec Session Unit
  unfolding establish_secret
  establish_if b client_id = if b then establish_secret client_id else pure tt

  -- The first loop of `_setup_keys_and_masks`.
  pub setup_client : ℕ → Exec Session Unit
  unfolding establish_if
  setup_client client_id = do
    c ← client_at client_id
    establish_if (is_set c.public_key && not (is_set c.shared_secret)) client_id

  -- Its second loop, for one pair.
  pub setup_pair : ℕ → ℕ → Exec Session Unit
  unfolding establish_if
  setup_pair a_id b_id = do
    a ← client_at a_id
    b ← client_at b_id
    let initiator = if ltb a_id b_id then a_id else b_id
    let responder = if ltb a_id b_id then b_id else a_id
    if is_set a.shared_secret && is_set b.shared_secret
        then pure tt
        else if is_set a.public_key && is_set b.public_key
        then (do
          i ← client_at initiator
          establish_if (not (is_set i.shared_secret)) initiator
          r ← client_at responder
          establish_if (not (is_set r.shared_secret)) responder)
        else pure tt

  pub set_pairwise_seed : ℕ → ℕ → Bytes → Exec Session Unit
  set_pairwise_seed client_id peer_id seed = do
    c ← client_at client_id
    modify
        (set_client client_id (record c { pairwise_seeds = insert peer_id seed c.pairwise_seeds }))

  -- The end of `_orchestrate_pairwise_kem`, for one pair.
  store_pair_seed : ℕ → ℕ → Exec Session Unit
  unfolding set_pairwise_seed
  store_pair_seed initiator responder = do
    i ← client_at initiator
    r ← client_at responder
    round_id ← gets (λ s. s.round.round_id)
    if is_set i.shared_secret && is_set r.shared_secret
        then (do
          secret ← lift (key_of i.shared_secret)
          seed ← lift (derive_pairwise_mask_seed platform secret initiator responder round_id)
          set_pairwise_seed initiator responder seed
          set_pairwise_seed responder initiator seed)
        else pure tt

  -- `_orchestrate_pairwise_kem`, for one pair.
  pub orchestrate_pair : ℕ → ℕ → Exec Session Unit
  unfolding establish_if store_pair_seed
  orchestrate_pair a_id b_id = do
    a ← client_at a_id
    b ← client_at b_id
    let initiator = if ltb a_id b_id then a_id else b_id
    let responder = if ltb a_id b_id then b_id else a_id
    if not (is_set a.public_key) || not (is_set b.public_key)
        then pure tt
        else if is_set a.shared_secret && is_set b.shared_secret
        then pure tt
        else (do
          i ← client_at initiator
          establish_if (not (is_set i.shared_secret)) initiator
          r ← client_at responder
          establish_if (not (is_set r.shared_secret)) responder
          store_pair_seed initiator responder)

  -- for i, a in enumerate(ids): for b in ids[i+1:]: body(a, b)
  pub for_each_pair : List ℕ → (ℕ → ℕ → Exec Session Unit) → Exec Session Unit
  for_each_pair [] body = pure tt
  for_each_pair (a ∷ ids) body = for_each ids (body a) >> for_each_pair ids body

  pub orchestrate_pairwise_kem : Exec Session Unit
  orchestrate_pairwise_kem = do
    ids ← gets (λ s. keys s.round.clients)
    for_each_pair ids orchestrate_pair

  -- The third loop of `_setup_keys_and_masks`, for one client and one peer.
  pub derive_seed_for : ℕ → ℕ → Exec Session Unit
  unfolding set_pairwise_seed
  derive_seed_for client_id peer_id = do
    c ← client_at client_id
    p ← client_at peer_id
    round_id ← gets (λ s. s.round.round_id)
    if not (client_id == peer_id) && is_set p.shared_secret
        then (do
          secret ← lift (key_of c.shared_secret)
          seed ← lift (
              derive_pairwise_mask_seed platform secret (min client_id peer_id)
                (max client_id peer_id) round_id)
          set_pairwise_seed client_id peer_id seed)
        else pure tt

  pub derive_seeds_of : List ℕ → ℕ → Exec Session Unit
  derive_seeds_of ids client_id = do
    c ← client_at client_id
    if is_set c.shared_secret then for_each ids (derive_seed_for client_id) else pure tt

  pub setup_keys_and_masks : Exec Session Unit
  setup_keys_and_masks = do
    ids ← gets (λ s. keys s.round.clients)
    for_each ids setup_client
    for_each_pair ids setup_pair
    orchestrate_pairwise_kem
    for_each ids (derive_seeds_of ids)
    modify (λ s. record s { round = record s.round { stage = mask_setup } })
