-- ===== src/Bridge/Keys/Seeds/Held.antt =====
-- The third loop of `_setup_keys_and_masks`, one turn at a time.
use dropout.Prelude.{
  ℕ, ◌≡◌, refl, sym, ◌∙◌, ap, arith, true, false, ◌&&◌, some, List, [], ◌∷◌, ◌==◌, ==-refl, inl,
  inr, All, Bool-cases,
}
use dropout.Prelude.Dict.{lookup}
use dropout.Prelude.Exec.{ok}
use dropout.Prelude.Exec.Keeps.{
  Keeps, Keeps-All, Keeps-bind, Keeps-for_each, Keeps-if, Keeps-pure, for_each-All,
}
use dropout.Bytes.{Bytes}
use dropout.Platform.{Platform}
use dropout.Kdf.{derive_pairwise_mask_seed}
use dropout.Bridge.State.{ClientState, Session, is_set, client_at}
use dropout.Bridge.Keys.{derive_seed_for, derive_seeds_of}
use dropout.Bridge.Keys.Seeds.{
  secret_in, secret_at, HoldsSeed, stored, Turn, secret_at-stored, seed_at-stored,
  derive_seed_for-Turn, at_client,
}
use mathlib.Core.Path.{subst}
use Prim.Native.Nat.{min, max}

module _ (platform : Platform) where
  -- Two different clients, each with a secret: the first holds its seed for the second.
  abbrev pub Seeded : ℕ → ℕ → Session → Type 0
  Seeded k p s =
      (k == p) ≡ false
      → is_set (secret_at k s) ≡ true
      → is_set (secret_at p s) ≡ true
      → HoldsSeed platform k p s

  module _ (k p : ℕ) (c : ClientState) (secret seed : Bytes) (s : Session)
      (has_c : lookup k s.round.clients ≡ some c) (has_secret : c.shared_secret ≡ some secret)
      (derived : derive_pairwise_mask_seed platform secret (min k p) (max k p) s.round.round_id
        ≡ ok seed) where
    stored-HoldsSeed : HoldsSeed platform k p (stored platform k p c seed s)
    stored-HoldsSeed = (
      secret,
      seed,
      secret_at-stored platform k p c seed s has_c k ∙ ap secret_in has_c ∙ has_secret,
      derived,
      seed_at-stored platform k p c seed s has_c k p ∙ rw (==-refl k, ==-refl p) refl,
    )

    stored-Seeded : (j q : ℕ) → Seeded j q s → Seeded j q (stored platform k p c seed s)
    stored-Seeded j q h ne hj hq = elim (Bool-cases ((k == j) && (p == q))) [
      | inl t ↦
          let kj : k ≡ j = ground arith in
          let pq : p ≡ q = ground arith in
          subst (λ i. HoldsSeed platform i q (stored platform k p c seed s)) kj
            (subst (λ i. HoldsSeed platform k i (stored platform k p c seed s)) pq stored-HoldsSeed)
      | inr f ↦
          let (mine, held, has_mine, derived', holds) =
            h ne (sym (ap is_set (secret_at-stored platform k p c seed s has_c j)) ∙ hj)
              (sym (ap is_set (secret_at-stored platform k p c seed s has_c q)) ∙ hq) in
          (
            mine,
            held,
            secret_at-stored platform k p c seed s has_c j ∙ has_mine,
            derived',
            seed_at-stored platform k p c seed s has_c j q ∙ rw f holds,
          )
    ]

  derive_seed_for-Seeded-Keeps : (k p j q : ℕ) → Keeps (Seeded j q) (derive_seed_for platform k p)
  unfolding Turn
  derive_seed_for-Seeded-Keeps k p j q = record {
    at = λ s h. elim (derive_seed_for-Turn platform k p s) [
      | inl (c, secret, seed, has_c, has_secret, derived, e) ↦
          subst (Seeded j q) (sym e)
            (stored-Seeded k p c secret seed s has_c has_secret derived j q h)
      | inr (e, _) ↦ subst (Seeded j q) (sym e) h
    ];
  }

  derive_seed_for-Seeded :
      (k p : ℕ) (s s' : Session) → derive_seed_for platform k p s ≡ (ok tt, s') → Seeded k p s'
  unfolding Turn
  derive_seed_for-Seeded k p s s' run ne hk hp =
      elim (subst (Turn platform k p s) run (derive_seed_for-Turn platform k p s)) [
        | inl (c, secret, seed, has_c, has_secret, derived, e) ↦
            subst (HoldsSeed platform k p) (sym e)
              (stored-HoldsSeed k p c secret seed s has_c has_secret derived)
        | inr (e, none_derived) ↦
            let has : is_set (secret_at p s) ≡ true =
              subst (λ x. is_set (secret_at p x) ≡ true) e hp in
            let not_derived : true ≡ false = rw (ne, has) at (none_derived refl) in absurd cc
      ]

  module _ (ids : List ℕ) where
    -- The same for one client and all the numbers of a list.
    unfoldable pub SeededAll : ℕ → Session → Type 0
    SeededAll k s = All (λ p. Seeded k p s) ids

    pub derive_seeds_of-SeededAll-Keeps :
        (k j : ℕ) → Keeps (SeededAll j) (derive_seeds_of platform ids k)
    unfolding SeededAll derive_seeds_of
    derive_seeds_of-SeededAll-Keeps k j = Keeps-All ids (derive_seeds_of platform ids k) (λ q.
        Keeps-bind (client_at k) _ (record { at = λ s h. h })
          (λ c.
            Keeps-if (is_set c.shared_secret) _ _
              (Keeps-for_each ids _ (λ p. derive_seed_for-Seeded-Keeps k p j q)) (Keeps-pure tt)))

    pub derive_seeds_of-SeededAll :
        (k : ℕ) (s s' : Session) → derive_seeds_of platform ids k s ≡ (ok tt, s') → SeededAll k s'
    unfolding SeededAll derive_seeds_of
    derive_seeds_of-SeededAll k s s' =
        at_client (λ run. run ≡ (ok tt, s') → All (λ p. Seeded k p s') ids) k _ s
          (λ _ run. absurd cc)
          (λ c has_c. elim (Bool-cases (is_set c.shared_secret)) [
            | inl t ↦ rw t (
                for_each-All (λ p. Seeded k p) (derive_seed_for platform k)
                  (derive_seed_for-Seeded k) (λ p q. derive_seed_for-Seeded-Keeps k p k q) ids s s')
            | inr f ↦ rw f (λ run.
                vacuous s'
                  (ap is_set (
                      ap secret_in
                        (subst (λ x. lookup k x.round.clients ≡ some c) (ap (λ r. r.1) run) has_c))
                    ∙ f)
                  ids)
          ])
      where
        vacuous :
            (x : Session)
            → is_set (secret_at k x) ≡ false
            → (qs : List ℕ) → All (λ p. Seeded k p x) qs
        vacuous x h [] = tt
        vacuous x h (q ∷ qs) = (λ ne hk hq. cc, vacuous x h qs)
