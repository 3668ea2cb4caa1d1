-- ===== src/Bridge/Keys/Examples.antt =====
-- The key setup of a round in which no client has a key to use.
use dropout.Prelude.{
  some, ◌+◌, replicate, length-replicate, get_or, arith, ℕ, ◌≡◌, refl, ap, [], ◌∷◌,
}
use dropout.Prelude.Dict.{lookup, keys, insert}
use dropout.Prelude.Exec.{ok, ok_injective, for_each}
use dropout.Samples.{sample_platform, keyless_session, masked_session, first_client, second_client}
use dropout.Platform.{Platform}
use dropout.Bridge.State.{Session}
use dropout.Bridge.Keys.Keeps.{Draws}
use dropout.Bridge.Keys.Secured.{NonEmpty}
use dropout.Bridge.Keys.Secured.{key_at}
use dropout.Bridge.Keys.Total.{IsWorking}
use dropout.Bridge.Keys.Total.Setup.{setup_keys_and_masks_total}
use dropout.Bridge.Keys.Seeds.{HoldsSeed, seed_at}
use dropout.Bridge.Keys.Seeds.Setup.{setup_keys_and_masks-HoldsSeed}
use dropout.Wire.{build_header}
use dropout.Kdf.{derive_pairwise_mask_seed, hkdf_expand, hkdf_extract}
use dropout.Bytes.{bytes_of, to_bytes4}
use mathlib.Core.Path.{subst}
use dropout.Bridge.Keys.{
  encapsulate_by, setup_client, establish_if, setup_pair, for_each_pair, orchestrate_pair,
  orchestrate_pairwise_kem, derive_seeds_of, derive_seed_for, setup_keys_and_masks,
}

pub setup_keyless : setup_keys_and_masks sample_platform keyless_session ≡ (ok tt, masked_session)
unfolding setup_keys_and_masks setup_client establish_if setup_pair for_each_pair orchestrate_pair
    orchestrate_pairwise_kem derive_seeds_of for_each lookup keys
setup_keyless = refl

-- A hash of 32 bytes that are the sum of the first of the key and the first of the message. The
-- ciphertext is one byte, and the secret the key after a 9, a 10 and so on.
abbrev pub nine_platform : Platform
nine_platform = record sample_platform {
  hmac_sha256 = λ key msg. replicate 32 (get_or key 0 0 + get_or msg 0 0);
  length-hmac_sha256 = λ key msg. length-replicate {A = ℕ} 32 (get_or key 0 0 + get_or msg 0 0);
  pq_encapsulate = λ draw key. ok (5 ∷ [], (9 + draw) ∷ key);
}

nine_draws : Draws nine_platform NonEmpty
unfolding encapsulate_by
nine_draws draw key ct secret e = subst NonEmpty (ap (λ r. r.1) (ok_injective e)) refl

-- Two clients with public keys, and no secrets.
abbrev pub keyed_session : Session
keyed_session = record keyless_session {
  round = record keyless_session.round { clients = (1, first_client) ∷ (2, second_client) ∷ [] };
}

abbrev keyed_after : Session
unfolding setup_keys_and_masks
keyed_after = (setup_keys_and_masks nine_platform keyed_session).1

setup_keyed : setup_keys_and_masks nine_platform keyed_session ≡ (ok tt, keyed_after)
unfolding setup_keys_and_masks for_each keys setup_client lookup build_header insert for_each_pair
    setup_pair orchestrate_pairwise_kem orchestrate_pair derive_seeds_of derive_seed_for
    derive_pairwise_mask_seed bytes_of to_bytes4 hkdf_expand
setup_keyed = refl

setup_keys_and_masks-HoldsSeed_example :
    HoldsSeed nine_platform 1 2 keyed_after × HoldsSeed nine_platform 2 1 keyed_after
unfolding setup_keys_and_masks for_each keys setup_client lookup build_header insert for_each_pair
    setup_pair orchestrate_pairwise_kem orchestrate_pair derive_seeds_of derive_seed_for
    derive_pairwise_mask_seed bytes_of to_bytes4 hkdf_expand
setup_keys_and_masks-HoldsSeed_example =
    setup_keys_and_masks-HoldsSeed nine_platform nine_draws keyed_session keyed_after setup_keyed 1
      2 refl refl refl

-- The two ends of the pair hold different seeds.
seeds_differ :
    (seed_at 1 2 keyed_after ≡ some (replicate 32 92))
    × (seed_at 2 1 keyed_after ≡ some (replicate 32 93))
unfolding setup_keys_and_masks for_each keys setup_client lookup build_header insert for_each_pair
    setup_pair orchestrate_pairwise_kem orchestrate_pair derive_seeds_of derive_seed_for
    derive_pairwise_mask_seed bytes_of to_bytes4 hkdf_expand hkdf_extract
seeds_differ = (refl, refl)

pub nine_works : IsWorking nine_platform (λ k. key_at k keyed_session)
unfolding encapsulate_by
nine_works = record {
  encapsulates = λ draw k bytes known. (5 ∷ [], (9 + draw) ∷ bytes, refl, omega arith);
  connected = λ writer. refl;
}

setup_keys_and_masks_total_example :
    (s' : Session) × (setup_keys_and_masks nine_platform keyed_session ≡ (ok tt, s'))
    × (keys s'.round.clients ≡ 1 ∷ 2 ∷ [])
    × ((k : ℕ) → key_at k s' ≡ key_at k keyed_session)
unfolding keys
setup_keys_and_masks_total_example =
    setup_keys_and_masks_total nine_platform keyed_session nine_works (omega arith)
      (omega arith, (omega arith, tt))
