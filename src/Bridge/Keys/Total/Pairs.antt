-- ===== src/Bridge/Keys/Total/Pairs.antt =====
-- Key setup where the encapsulation works and no connection is lost: the loops over pairs.
use dropout.Prelude.{
  and_left, and_right, ℕ, ◌≡◌, refl, sym, ◌∙◌, ap, ◌<◌, Bool, true, false, not, ◌&&◌, ◌||◌, Option,
  List, [], ◌∷◌, if◌then◌else◌, All, All-map, ltb,
}
use dropout.Prelude.Dict.{is_listed, is_listed_self, All-is_listed, keys, insert}
use dropout.Prelude.Exec.{for_each, Exec, lift, pure, ◌>>=◌, ◌>>◌}
use dropout.Prelude.Exec.Returns.{
  Returns, Returns-pure, Returns-if, Returns-modify, Returns-bind, Returns-lift, Returns-gets,
  Returns-for_each,
}
use dropout.Bytes.{Bytes}
use dropout.Kdf.{derive_pairwise_mask_seed}
use dropout.Kdf.Derive.{derive_pairwise_mask_seed_total}
use dropout.Platform.{Platform}
use dropout.Bridge.State.{ClientState, Session, is_set, set_client, client_at}
use dropout.Bridge.Keys.{
  establish_if, setup_pair, orchestrate_pair, store_pair_seed, for_each_pair, set_pairwise_seed,
  orchestrate_pairwise_kem, key_of,
}
use mathlib.Core.Path.{subst}
use dropout.Bridge.Keys.Total.{
  IsWorking, IsReady, IsReady-set_client, Returns-client_at, establish_if-Returns,
  establish_next-Returns, is_set-some,
}

pub below : (k : ℕ) (ids : List ℕ) → All (λ j. j < 256) ids → is_listed k ids ≡ true → k < 256
below k ids small listed = All-is_listed (λ j. j < 256) k ids small listed

-- What holds of two numbers holds of the lower and of the higher one.
ordered :
    (P : ℕ → Type 0) (b : Bool) (k p : ℕ)
    → P k
    → P p
    → P (if b then k else p) × P (if b then p else k)
ordered P true k p hk hp = (hk, hp)
ordered P false k p hk hp = (hp, hk)

-- A client that can be set up.
HasKey : List ℕ → (ℕ → Option Bytes) → ℕ → Type 0
HasKey ids key k = (is_listed k ids ≡ true) × (is_set (key k) ≡ true)

module _ (platform : Platform) {key : ℕ → Option Bytes} (works : IsWorking platform key)
    {ids : List ℕ} {rid : ℕ} (small_round : rid < 4294967296) (small : All (λ k. k < 256) ids) where
  pub set_pairwise_seed-Returns :
      (k peer : ℕ) (seed : Bytes)
      → is_listed k ids ≡ true
      → Returns (IsReady ids key rid) (set_pairwise_seed platform k peer seed)
  unfolding set_pairwise_seed
  set_pairwise_seed-Returns k peer seed listed = Returns-client_at k _ listed (λ c same.
      let c' : ClientState = record c { pairwise_seeds = insert peer seed c.pairwise_seeds } in
      Returns-modify (set_client k c') (λ s h. IsReady-set_client k c' s listed same h))

  store_pair_seed-Returns :
      (i r : ℕ)
      → is_listed i ids ≡ true
      → is_listed r ids ≡ true
      → Returns (IsReady ids key rid) (store_pair_seed platform i r)
  unfolding store_pair_seed key_of
  store_pair_seed-Returns i r li lr = Returns-client_at i _ li (λ c _.
      Returns-client_at r _ lr (λ d _.
        let store : Bytes → Exec Session Unit =
          λ seed. set_pairwise_seed platform i r seed >> set_pairwise_seed platform r i seed in
        let from_secret : ℕ → Bytes → Exec Session Unit =
          λ n secret. lift (derive_pairwise_mask_seed platform secret i r n) >>= store in
        let from_client : ℕ → Exec Session Unit =
          λ n. lift (key_of platform c.shared_secret) >>= from_secret n in
        let both = is_set c.shared_secret && is_set d.shared_secret in
        Returns-gets (λ s. s.round.round_id) (λ n. if both then from_client n else pure tt)
          (λ n. n ≡ rid) (λ s h. h.in_round)
          (λ n is_rid.
            Returns-if both (from_client n) (pure tt)
              (λ t.
                let (secret, e) = is_set-some c.shared_secret (and_left _ _ t) in
                let (seed, derived, _) =
                  derive_pairwise_mask_seed_total platform secret i r rid (below i ids small li)
                    (below r ids small lr) small_round in
                Returns-lift (key_of platform c.shared_secret) (from_secret n) secret
                  (ap (key_of platform) e)
                  (Returns-lift (derive_pairwise_mask_seed platform secret i r n) store seed
                    (ap (derive_pairwise_mask_seed platform secret i r) is_rid ∙ derived)
                    (Returns-bind (set_pairwise_seed platform i r seed)
                      (λ _. set_pairwise_seed platform r i seed)
                      (set_pairwise_seed-Returns i r seed li)
                      (λ _. set_pairwise_seed-Returns r i seed lr))))
              (λ _. Returns-pure tt))))

  setup_pair-Returns :
      (a b : ℕ)
      → is_listed a ids ≡ true
      → is_listed b ids ≡ true
      → Returns (IsReady ids key rid) (setup_pair platform a b)
  unfolding setup_pair HasKey
  setup_pair-Returns a b la lb = Returns-client_at a _ la (λ c same_c.
      Returns-client_at b _ lb (λ d same_d.
        Returns-if (is_set c.shared_secret && is_set d.shared_secret) _ _ (λ _. Returns-pure tt)
          (λ _.
            Returns-if (is_set c.public_key && is_set d.public_key) _ _
              (λ t.
                let ((li, hi), (lr, hr)) =
                  ordered (HasKey ids key) (ltb a b) a b
                    (la, ap is_set (sym same_c) ∙ and_left _ _ t)
                    (lb, ap is_set (sym same_d) ∙ and_right _ _ t) in
                let r = if ltb a b then b else a in
                establish_next-Returns platform works small_round _
                  (client_at r >>= λ x. establish_if platform (not (is_set x.shared_secret)) r) li
                  hi
                  (Returns-client_at r (λ x. establish_if platform (not (is_set x.shared_secret)) r)
                    lr (λ x _. establish_if-Returns platform works small_round _ r lr (λ _. hr))))
              (λ _. Returns-pure tt))))

  orchestrate_pair-Returns :
      (a b : ℕ)
      → is_listed a ids ≡ true
      → is_listed b ids ≡ true
      → Returns (IsReady ids key rid) (orchestrate_pair platform a b)
  unfolding orchestrate_pair HasKey
  orchestrate_pair-Returns a b la lb = Returns-client_at a _ la (λ c same_c.
      Returns-client_at b _ lb (λ d same_d.
        Returns-if (not (is_set c.public_key) || not (is_set d.public_key)) _ _
          (λ _. Returns-pure tt)
          (λ f.
            Returns-if (is_set c.shared_secret && is_set d.shared_secret) _ _ (λ _. Returns-pure tt)
              (λ _.
                let (ka, kb) = neither (is_set c.public_key) (is_set d.public_key) f in
                let ((li, hi), (lr, hr)) =
                  ordered (HasKey ids key) (ltb a b) a b (la, ap is_set (sym same_c) ∙ ka)
                    (lb, ap is_set (sym same_d) ∙ kb) in
                let i = if ltb a b then a else b in
                let r = if ltb a b then b else a in
                establish_next-Returns platform works small_round i
                  (client_at r >>= λ x.
                    establish_if platform (not (is_set x.shared_secret)) r >>= λ _.
                    store_pair_seed platform i r)
                  li hi
                  (establish_next-Returns platform works small_round r
                    (store_pair_seed platform i r) lr hr (store_pair_seed-Returns i r li lr))))))
    where
      neither : (x y : Bool) → (not x || not y) ≡ false → (x ≡ true) × (y ≡ true)
      neither true true h = (refl, refl)
      neither true false h = cc
      neither false y h = cc

  for_each_pair-Returns :
      (js : List ℕ) (body : ℕ → ℕ → Exec Session Unit)
      → All (λ j. is_listed j ids ≡ true) js
      → ((a b : ℕ)
          → is_listed a ids ≡ true
          → is_listed b ids ≡ true
          → Returns (IsReady ids key rid) (body a b))
      → Returns (IsReady ids key rid) (for_each_pair platform js body)
  unfolding for_each_pair
  for_each_pair-Returns [] body listed next = Returns-pure tt
  for_each_pair-Returns (a ∷ js) body listed next =
      Returns-bind (for_each js (body a)) (λ _. for_each_pair platform js body)
        (Returns-for_each js (body a)
          (All-map (λ j. is_listed j ids ≡ true) _ (λ b. next a b listed.0) js listed.1))
        (λ _. for_each_pair-Returns js body listed.1 next)

  pub setup_pairs-Returns :
      Returns (IsReady ids key rid) (for_each_pair platform ids (setup_pair platform))
  setup_pairs-Returns =
      for_each_pair-Returns ids (setup_pair platform) (is_listed_self ids) setup_pair-Returns

  pub orchestrate_pairwise_kem-Returns :
      Returns (IsReady ids key rid) (orchestrate_pairwise_kem platform)
  unfolding orchestrate_pairwise_kem
  orchestrate_pairwise_kem-Returns =
      Returns-gets (λ s. keys s.round.clients)
        (λ js. for_each_pair platform js (orchestrate_pair platform)) (λ js. js ≡ ids)
        (λ s h. h.numbered)
        (λ js same.
          subst
            (λ x.
              Returns (IsReady ids key rid) (for_each_pair platform x (orchestrate_pair platform)))
            (sym same)
            (for_each_pair-Returns ids (orchestrate_pair platform) (is_listed_self ids)
              orchestrate_pair-Returns))
