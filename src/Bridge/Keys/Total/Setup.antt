-- ===== src/Bridge/Keys/Total/Setup.antt =====
-- Key setup where the encapsulation works and no connection is lost: its third loop, and the whole.
use dropout.Prelude.{
  ℕ, ◌≡◌, refl, sym, ◌∙◌, ap, arith, ◌<◌, true, not, ◌&&◌, Option, some, List, if◌then◌else◌, ◌==◌,
  inl, inr, All, All-map, Bool-cases,
}
use dropout.Prelude.Dict.{is_listed, is_listed_self, keys}
use dropout.Prelude.Exec.{ok, for_each, Exec, gets, modify, lift, pure, ◌>>=◌, ◌>>◌}
use dropout.Prelude.Exec.Keeps.{Keeps}
use dropout.Prelude.Exec.Returns.{
  Ended, Returns, Returns-pure, Returns-if, Returns-modify, Returns-bind, Returns-lift,
  Returns-gets, Returns-for_each,
}
use dropout.Bytes.{Bytes}
use dropout.Kdf.{derive_pairwise_mask_seed}
use dropout.Kdf.Derive.{derive_pairwise_mask_seed_total}
use dropout.Platform.{Platform}
use dropout.Bridge.State.{ClientState, Session, is_set, mask_setup}
use dropout.Bridge.Keys.{
  setup_client, setup_pair, for_each_pair, set_pairwise_seed, orchestrate_pairwise_kem, key_of,
  derive_seed_for, derive_seeds_of, setup_keys_and_masks,
}
use dropout.Bridge.Keys.Keeps.{after_clients}
use dropout.Bridge.Keys.Secured.{key_at}
use dropout.Bridge.Keys.Seeds.{
  secret_in, secret_at, at_client, Turn, derive_seed_for-Turn, secret_at-stored,
}
use dropout.Bridge.Keys.Total.{IsWorking, IsReady, present, setup_client-Returns, is_set-some}
use dropout.Bridge.Keys.Total.Pairs.{
  below, set_pairwise_seed-Returns, setup_pairs-Returns, orchestrate_pairwise_kem-Returns,
}
use mathlib.Core.Path.{subst}
use Prim.Native.Nat.{min, max}

derive_seed_for-Keeps_secret :
    (platform : Platform) (k p j : ℕ) (o : Option Bytes)
    → Keeps (λ s. secret_at j s ≡ o) (derive_seed_for platform k p)
unfolding Turn
derive_seed_for-Keeps_secret platform k p j o = record {
  at = λ s h. elim (derive_seed_for-Turn platform k p s) [
    | inl (c, secret, seed, has_c, has_secret, derived, e) ↦
        subst (λ x. secret_at j x ≡ o) (sym e) (secret_at-stored platform k p c seed s has_c j ∙ h)
    | inr (e, _) ↦ subst (λ x. secret_at j x ≡ o) (sym e) h
  ];
}

module _ (platform : Platform) {key : ℕ → Option Bytes} (works : IsWorking platform key)
    {ids : List ℕ} {rid : ℕ} (small_round : rid < 4294967296) (small : All (λ k. k < 256) ids) where
  derive_seed_for-Returns :
      (k p : ℕ) (secret : Bytes)
      → is_listed k ids ≡ true
      → is_listed p ids ≡ true
      → Returns
          (λ s. IsReady ids key rid s × (secret_at k s ≡ some secret))
          (derive_seed_for platform k p)
  unfolding derive_seed_for key_of
  derive_seed_for-Returns k p secret lk lp = record {
    at = λ s h.
        let (u, e, ready) =
          at_client (Ended (IsReady ids key rid)) k _ s
            (λ missing. let (c, found) = present k s lk h.0 in absurd cc)
            (λ c has_c.
              at_client (Ended (IsReady ids key rid)) p _ s
                (λ missing. let (d, found) = present p s lp h.0 in absurd cc)
                (λ d has_d. (finish c d (sym (ap secret_in has_c) ∙ h.1)).at s h.0)) in
        (u, e, (ready, (derive_seed_for-Keeps_secret platform k p k (some secret)).at s h.1));
  }
    where
      seeded : Bytes → ℕ → Exec Session Unit
      seeded sec n =
          lift (derive_pairwise_mask_seed platform sec (min k p) (max k p) n)
          >>= set_pairwise_seed platform k p

      finish :
          (c d : ClientState)
          → c.shared_secret ≡ some secret
          → Returns (IsReady ids key rid) (
              gets (λ s. s.round.round_id) >>= λ n.
              if not (k == p) && is_set d.shared_secret
              then lift (key_of platform c.shared_secret) >>= (λ sec. seeded sec n)
              else pure tt)
      finish c d has_secret =
          Returns-gets (λ s. s.round.round_id) _ (λ n. n ≡ rid) (λ s h. h.in_round)
            (λ n is_rid.
              Returns-if (not (k == p) && is_set d.shared_secret) _ (pure tt)
                (λ t.
                  let bk = below k ids small lk in
                  let bp = below p ids small lp in
                  let (seed, derived, _) =
                    derive_pairwise_mask_seed_total platform secret (min k p) (max k p) rid
                      (omega arith) (omega arith) small_round in
                  Returns-lift (key_of platform c.shared_secret) (λ sec. seeded sec n) secret
                    (ap (key_of platform) has_secret)
                    (Returns-lift (derive_pairwise_mask_seed platform secret (min k p) (max k p) n)
                      (set_pairwise_seed platform k p) seed
                      (ap (derive_pairwise_mask_seed platform secret (min k p) (max k p)) is_rid
                        ∙ derived)
                      (set_pairwise_seed-Returns platform works small_round small k p seed lk)))
                (λ _. Returns-pure tt))

  derive_seeds_of-Returns :
      (k : ℕ)
      → is_listed k ids ≡ true
      → Returns (IsReady ids key rid) (derive_seeds_of platform ids k)
  unfolding derive_seeds_of
  derive_seeds_of-Returns k listed = record {
    at = λ s h.
        at_client (Ended (IsReady ids key rid)) k _ s
          (λ missing. let (c, found) = present k s listed h in absurd cc)
          (λ c has_c. elim (Bool-cases (is_set c.shared_secret)) [
            | inl t ↦
                let (secret, has_secret) = is_set-some c.shared_secret t in
                let (u, e, after) = (all_seeds secret).at s (h, ap secret_in has_c ∙ has_secret) in
                rw t (u, e, after.0)
            | inr f ↦ rw f (tt, refl, h)
          ]);
  }
    where
      all_seeds :
          (secret : Bytes)
          → Returns
              (λ s. IsReady ids key rid s × (secret_at k s ≡ some secret))
              (for_each ids (derive_seed_for platform k))
      all_seeds secret = Returns-for_each ids (derive_seed_for platform k) (
          All-map (λ j. is_listed j ids ≡ true) _
            (λ p lp. derive_seed_for-Returns k p secret listed lp) ids (is_listed_self ids))

  after_clients-Returns : Returns (IsReady ids key rid) (after_clients platform ids)
  unfolding after_clients
  after_clients-Returns =
      let mark : Exec Session Unit =
        modify (λ s. record s { round = record s.round { stage = mask_setup } }) in
      let seeds = for_each ids (derive_seeds_of platform ids) in
      Returns-bind (for_each_pair platform ids (setup_pair platform))
        (λ _. orchestrate_pairwise_kem platform >> (seeds >> mark))
        (setup_pairs-Returns platform works small_round small)
        (λ _.
          Returns-bind (orchestrate_pairwise_kem platform) (λ _. seeds >> mark)
            (orchestrate_pairwise_kem-Returns platform works small_round small)
            (λ _.
              Returns-bind seeds (λ _. mark)
                (Returns-for_each ids (derive_seeds_of platform ids) (
                  All-map (λ j. is_listed j ids ≡ true) _ derive_seeds_of-Returns ids
                    (is_listed_self ids)))
                (λ _. Returns-modify _ (λ s h. record {
                  numbered = h.numbered;
                  keyed = h.keyed;
                  in_round = h.in_round;
                }))))

  setup_clients-Returns : Returns (IsReady ids key rid) (for_each ids (setup_client platform))
  setup_clients-Returns = Returns-for_each ids (setup_client platform) (
      All-map (λ j. is_listed j ids ≡ true) _ (setup_client-Returns platform works small_round) ids
        (is_listed_self ids))

  whole-Returns :
      Returns
        (IsReady ids key rid)
        (for_each ids (setup_client platform) >> after_clients platform ids)
  whole-Returns =
      Returns-bind (for_each ids (setup_client platform)) (λ _. after_clients platform ids)
        setup_clients-Returns (λ _. after_clients-Returns)

-- Where the encapsulation returns for the public key of each client, with a ciphertext that fits a
-- message, no connection is lost, and the numbers of the clients and of the round are below 2 ^ 8
-- and 2 ^ 32: `_setup_keys_and_masks` raises nothing, and leaves the numbers of the clients and
-- their public keys as they were.
pub setup_keys_and_masks_total :
    (platform : Platform) (s : Session)
    → IsWorking platform (λ k. key_at k s)
    → s.round.round_id < 4294967296
    → All (λ k. k < 256) (keys s.round.clients)
    → (s' : Session) × (setup_keys_and_masks platform s ≡ (ok tt, s'))
      × (keys s'.round.clients ≡ keys s.round.clients)
      × ((k : ℕ) → key_at k s' ≡ key_at k s)
unfolding setup_keys_and_masks after_clients
setup_keys_and_masks_total platform s works small_round small =
    let (u, e, ready) =
      (whole-Returns platform works small_round small).at s
        (record { numbered = refl; keyed = λ k. refl; in_round = refl }) in
    (_, ap (λ r. (r, (setup_keys_and_masks platform s).1)) e, ready.numbered, ready.keyed)
