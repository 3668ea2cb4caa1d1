-- ===== src/Bridge/Keys/Seeds.antt =====
-- Key setup and the pairwise seeds of the clients, next to their shared secrets.
pub mod Held
pub mod Setup
use dropout.Prelude.{
  ℕ, ◌≡◌, refl, sym, ◌∙◌, ap, arith, Bool, true, false, not, ◌&&◌, Option, none, some, List, [],
  ◌∷◌, if◌then◌else◌, ◌==◌, ◌⊎◌, inl, inr, All, Bool-cases,
}
use dropout.Prelude.Dict.{Dict, lookup, insert, keys, lookup-insert}
use dropout.Prelude.Exec.{
  Result, Error, ok, ok_injective, err, key_error, Exec, continue, lift, ◌>>=◌,
}
use dropout.Prelude.Exec.Keeps.{Keeps}
use dropout.Bytes.{Bytes}
use dropout.Platform.{Platform}
use dropout.Kdf.{derive_pairwise_mask_seed}
use dropout.Bridge.State.{ClientState, Session, is_set, set_client, client_at}
use dropout.Bridge.Keys.{derive_seed_for, set_pairwise_seed, key_of}
use mathlib.Core.Option.{some-injective}
use Prim.Native.Nat.{min, max}

abbrev pub secret_in : Option ClientState → Option Bytes
secret_in none = none
secret_in (some c) = c.shared_secret

abbrev pub seed_in : ℕ → Option ClientState → Option Bytes
seed_in p none = none
seed_in p (some c) = lookup p c.pairwise_seeds

-- round_state.clients[k].shared_secret, if the client is there
abbrev pub secret_at : ℕ → Session → Option Bytes
secret_at k s = secret_in (lookup k s.round.clients)

-- round_state.clients[k].pairwise_seeds.get(p), if the client is there
abbrev pub seed_at : ℕ → ℕ → Session → Option Bytes
seed_at k p s = seed_in p (lookup k s.round.clients)

pub at_client :
    {B : Type 0} (P : Result B × Session → Type 0) (k : ℕ) (f : ClientState → Exec Session B)
    (s : Session)
    → (lookup k s.round.clients ≡ none → P (err key_error, s))
    → ((c : ClientState) → lookup k s.round.clients ≡ some c → P (f c s))
    → P ((client_at k >>= f) s)
at_client {B = B} P k f s missing found = go (lookup k s.round.clients) refl
  where
    go :
        (o : Option ClientState)
        → lookup k s.round.clients ≡ o
        → P (continue {B = B} (elim o [ none ↦ err key_error | some c ↦ ok c ]) f s)
    go none e = missing e
    go (some c) e = found c e

pub at_lift :
    {A B : Type 0} (P : Result B × Session → Type 0) (r : Result A) (f : A → Exec Session B)
    (s : Session)
    → ((e : Error) → P (err e, s))
    → ((a : A) → r ≡ ok a → P (f a s))
    → P ((lift r >>= f) s)
at_lift P (ok a) f s raise return = return a refl
at_lift P (err e) f s raise return = raise e

module _ (platform : Platform) where
  -- What `client_id` keeps for `peer_id` when `seed` is stored.
  abbrev pub stored : ℕ → ℕ → ClientState → Bytes → Session → Session
  stored k p c seed s =
      set_client k (record c { pairwise_seeds = insert p seed c.pairwise_seeds }) s

  -- `k` holds for `p` the seed that its own secret gives for the pair in this round.
  abbrev pub HoldsSeed : ℕ → ℕ → Session → Type 0
  HoldsSeed k p s =
      (secret seed : Bytes) × (secret_at k s ≡ some secret)
      × (derive_pairwise_mask_seed platform secret (min k p) (max k p) s.round.round_id ≡ ok seed)
      × (seed_at k p s ≡ some seed)

  -- A turn of the third loop ends with the seed stored, or in the state it started in; in the second
  -- case it raises, or the peer is the client itself or has no secret.
  unfoldable pub Turn : ℕ → ℕ → Session → Result (Unit {0}) × Session → Type 0
  Turn k p s run =
      ((c : ClientState) × (secret seed : Bytes) × (lookup k s.round.clients ≡ some c)
        × (c.shared_secret ≡ some secret)
        × (derive_pairwise_mask_seed platform secret (min k p) (max k p) s.round.round_id ≡ ok seed)
        × (run.1 ≡ stored k p c seed s))
      ⊎ ((run.1 ≡ s) × (run.0 ≡ ok tt → (not (k == p) && is_set (secret_at p s)) ≡ false))

  raised : (k p : ℕ) (s : Session) (e : Error) → Turn k p s (err e, s)
  unfolding Turn
  raised k p s e = inr (refl, λ r. absurd cc)

  key_of-eq-ok :
      (o : Option Bytes) {secret : Bytes} → key_of platform o ≡ ok secret → o ≡ some secret
  unfolding key_of
  key_of-eq-ok none e = cc
  key_of-eq-ok (some key) e = ap some (ok_injective e)

  pub derive_seed_for-Turn : (k p : ℕ) (s : Session) → Turn k p s (derive_seed_for platform k p s)
  unfolding derive_seed_for set_pairwise_seed Turn
  derive_seed_for-Turn k p s =
      at_client (Turn k p s) k _ s (λ _. raised k p s key_error)
        (λ c has_c.
          at_client (Turn k p s) p _ s (λ _. raised k p s key_error)
            (λ d has_d. elim (Bool-cases (not (k == p) && is_set d.shared_secret)) [
              | inl t ↦ rw t (
                  at_lift (Turn k p s) (key_of platform c.shared_secret) _ s (raised k p s)
                    (λ secret is_secret. at_lift (Turn k p s) _ _ s (raised k p s) (λ seed is_seed.
                      at_client (Turn k p s) k _ s (λ _. raised k p s key_error)
                        (λ c' has_c'. inl (
                          c',
                          secret,
                          seed,
                          has_c',
                          sym (
                                ap (λ (x : ClientState). x.shared_secret)
                                  (some-injective c c' (sym has_c ∙ has_c')))
                              ∙ key_of-eq-ok c.shared_secret is_secret,
                          is_seed,
                          refl,
                        )))))
              | inr f ↦ rw f (
                  inr (
                    refl,
                    λ _.
                        let same : secret_at p s ≡ d.shared_secret = ap secret_in has_d in
                        rw same f,
                  ))
            ]))

  -- What a turn stores: no secret changes, and only the seed of the client for the peer.
  module _ (k p : ℕ) (c : ClientState) (seed : Bytes) (s : Session)
      (has_c : lookup k s.round.clients ≡ some c) where
    holder : ClientState
    holder = record c { pairwise_seeds = insert p seed c.pairwise_seeds }

    -- A number is that of the client, which was there, or it is another.
    lookup-stored :
        (j : ℕ)
        → ((k == j) ≡ true)
            × (lookup j (stored k p c seed s).round.clients ≡ some holder)
            × (lookup j s.round.clients ≡ some c)
          ⊎ ((k == j) ≡ false)
            × (lookup j (stored k p c seed s).round.clients ≡ lookup j s.round.clients)
    unfolding holder
    lookup-stored j = elim (Bool-cases (k == j)) [
      | inl t ↦
          let same : k ≡ j = ground arith in
          inl (t, lookup-insert k j _ s.round.clients ∙ rw t refl, rw (sym same) has_c)
      | inr f ↦ inr (f, lookup-insert k j _ s.round.clients ∙ rw f refl)
    ]

    pub secret_at-stored : (j : ℕ) → secret_at j (stored k p c seed s) ≡ secret_at j s
    unfolding holder
    secret_at-stored j = elim (lookup-stored j) [
      | inl (t, new, old) ↦ ap secret_in new ∙ sym (ap secret_in old)
      | inr (f, same) ↦ ap secret_in same
    ]

    pub seed_at-stored :
        (j q : ℕ)
        → seed_at j q (stored k p c seed s)
          ≡ (if (k == j) && (p == q) then some seed else seed_at j q s)
    unfolding holder
    seed_at-stored j q = elim (lookup-stored j) [
      | inl (t, new, old) ↦
          ap (seed_in q) new
          ∙ lookup-insert p q seed c.pairwise_seeds
          ∙ rw (t, ap (seed_in q) old) refl
      | inr (f, same) ↦ ap (seed_in q) same ∙ rw f refl
    ]
