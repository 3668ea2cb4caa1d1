-- ===== src/Bridge/Keys/Secured.antt =====
-- Key setup and the shared secrets of the clients, next to their public keys.
use dropout.Prelude.{
  ℕ, ◌≡◌, refl, sym, ◌∙◌, arith, Bool, true, false, not, ◌&&◌, Option, none, some, List, ◌==◌,
  ==-refl, ◌++◌, length, inl, inr, All, Bool-cases,
}
use dropout.Prelude.Dict.{lookup, lookup-insert}
use dropout.Prelude.Exec.{ok, for_each, Exec, gets, lift, ◌>>=◌}
use dropout.Prelude.Exec.Keeps.{Keeps, for_each-All, keeps_rules}
use dropout.Bytes.{Bytes}
use dropout.Wire.{build_header}
use dropout.Wire.MsgType
use dropout.Platform.{Platform}
use dropout.Bridge.State.{ClientState, Session, is_set, set_client}
use dropout.Bridge.Keys.{
  establish_secret, establish_if, setup_client, send_to_client, encapsulate, encapsulate_by, key_of,
}
use dropout.Bridge.Keys.Keeps.{IsKeyInvariant, Draws, setup_client-Keeps, send_to_client-Keeps}
use dropout.Bridge.Keys.Seeds.{secret_in, at_client, at_lift}
use mathlib.Core.Path.{subst}

abbrev pub key_in : Option ClientState → Option Bytes
key_in none = none
key_in (some c) = c.public_key

-- round_state.clients[k].public_key, if the client is there
abbrev pub key_at : ℕ → Session → Option Bytes
key_at k s = key_in (lookup k s.round.clients)

abbrev HasSecret : Option ClientState → Type 0
HasSecret o = is_set (key_in o) ≡ true → is_set (secret_in o) ≡ true

-- Client `k`, if it is there and has a public key, has a shared secret.
abbrev pub Secured : ℕ → Session → Type 0
Secured k s = HasSecret (lookup k s.round.clients)

-- The secrets of an encapsulation are not empty.
abbrev pub NonEmpty : Bytes → Type 0
NonEmpty secret = is_set (some secret) ≡ true

Secured-set_own :
    (k : ℕ) (c : ClientState) (s : Session) → HasSecret (some c) → Secured k (set_client k c s)
Secured-set_own k c s has =
    subst HasSecret {x = some c} (sym (lookup-insert k k c s.round.clients ∙ rw (==-refl k) refl))
      has

Secured-set_client :
    (k j : ℕ) (c : ClientState) (s : Session)
    → ((j == k) ≡ true → HasSecret (some c))
    → Secured k s
    → Secured k (set_client j c s)
Secured-set_client k j c s has h = elim (Bool-cases (j == k)) [
  | inl t ↦
      let same : j ≡ k = ground arith in
      subst (λ i. Secured i (set_client j c s)) same (Secured-set_own j c s (has t))
  | inr f ↦
      subst HasSecret {x = lookup k s.round.clients}
        (sym (lookup-insert j k c s.round.clients ∙ rw f refl)) h
]

pub secured :
    (k : ℕ) → IsKeyInvariant (Secured k) (λ j c. (j == k) ≡ true → HasSecret (some c)) NonEmpty
secured k = record {
  found = λ j c s h e t.
      let same : j ≡ k = ground arith in
      subst HasSecret (subst (λ i. lookup i s.round.clients ≡ some c) same e) h;
  set_secret = λ j c secret s new has h. Secured-set_client k j _ s (λ t key. new) h;
  set_seeds = λ j c seeds s has h. Secured-set_client k j _ s has h;
  set_io = λ io s h. h;
  set_stage = λ stage s h. h;
}

-- What follows the new secret in `establish_secret`.
unfoldable pub announce : Platform → ℕ → Bytes → Exec Session Unit
announce platform k ct = do
  round_id ← gets (λ s. s.round.round_id)
  header ← lift (build_header MsgType.kem_ciphertext round_id 0 0 (length ct))
  send_to_client platform k (header ++ ct)

module _ (platform : Platform) (draws : Draws platform NonEmpty) where
  setup_client-Secured-Keeps : (j k : ℕ) → Keeps (Secured k) (setup_client platform j)
  setup_client-Secured-Keeps j k = setup_client-Keeps platform (secured k) draws j

  announce-Keeps : (k : ℕ) (ct : Bytes) → Keeps (Secured k) (announce platform k ct)
  unfolding announce
  announce-Keeps k ct = search (keeps_rules, send_to_client-Keeps platform (secured k) draws)

  establish_secret-Secured :
      (k : ℕ) (s s' : Session) → establish_secret platform k s ≡ (ok tt, s') → Secured k s'
  unfolding establish_secret encapsulate announce
  establish_secret-Secured k s s' =
      at_client (λ run. run ≡ (ok tt, s') → Secured k s') k _ s (λ _ run. absurd cc)
        (λ c has_c.
          at_lift (λ run. run ≡ (ok tt, s') → Secured k s') (key_of platform c.public_key) _ s
            (λ e run. absurd cc)
            (λ key _.
              at_lift (λ run. run ≡ (ok tt, s') → Secured k s')
                (encapsulate_by platform platform.kem_library s.io.draws key) _ _
                (λ e run. absurd cc)
                (λ drawn is_drawn run.
                  subst (λ r. Secured k r.1) run
                    ((announce-Keeps k drawn.0).at _ (
                      Secured-set_own k _ (encapsulate platform key s).1
                        (λ _. draws s.io.draws key drawn.0 drawn.1 is_drawn))))))

  setup_client-Secured :
      (k : ℕ) (s s' : Session) → setup_client platform k s ≡ (ok tt, s') → Secured k s'
  unfolding setup_client establish_if
  setup_client-Secured k s s' =
      at_client (λ run. run ≡ (ok tt, s') → Secured k s') k _ s (λ _ run. absurd cc)
        (λ c has_c. elim (Bool-cases (is_set c.public_key && not (is_set c.shared_secret))) [
          | inl t ↦ rw t (establish_secret-Secured k s s')
          | inr f ↦ rw f (λ run.
              subst (λ r. Secured k r.1) run
                (subst HasSecret (sym has_c)
                  (kept (is_set c.public_key) (is_set c.shared_secret) f)))
        ])
    where
      kept : (key secret : Bool) → (key && not secret) ≡ false → key ≡ true → secret ≡ true
      kept true true f h = refl
      kept true false f h = cc
      kept false secret f h = cc

  -- The first loop of `_setup_keys_and_masks`.
  pub setup_clients-Secured :
      (ids : List ℕ) (s s' : Session)
      → for_each ids (setup_client platform) s ≡ (ok tt, s')
      → All (λ k. Secured k s') ids
  setup_clients-Secured =
      for_each-All Secured (setup_client platform) setup_client-Secured setup_client-Secured-Keeps
