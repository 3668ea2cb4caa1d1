-- ===== src/Bridge/Keys/Seeds/Setup.antt =====
-- `_setup_keys_and_masks` as a whole: the seeds that its clients hold when it returns.
use dropout.Prelude.{
  arith, ℕ, ◌≡◌, refl, sym, ◌∙◌, ap, true, false, some, List, ◌==◌, All, Option-cases, inl, inr,
}
use dropout.Prelude.Dict.{lookup, keys, is_listed, is_listed-keys, keys-insert, All-is_listed}
use dropout.Prelude.Exec.{ok, Exec, for_each, modify, ◌>>◌, bind-eq-ok}
use dropout.Prelude.Exec.Keeps.{Keeps-All, for_each-All}
use dropout.Platform.{Platform}
use dropout.Bridge.State.{set_client, ClientState, Session, is_set, mask_setup}
use dropout.Bridge.Keys.{
  setup_client, setup_pair, for_each_pair, orchestrate_pairwise_kem, derive_seeds_of,
  setup_keys_and_masks,
}
use dropout.Bridge.Keys.Keeps.{
  IsKeyInvariant, Draws, after_clients, after_clients-Keeps, setup_keys_and_masks-Keeps,
}
use dropout.Bridge.Keys.Seeds.{HoldsSeed}
use dropout.Bridge.Keys.Seeds.Held.{
  Seeded, SeededAll, derive_seeds_of-SeededAll, derive_seeds_of-SeededAll-Keeps,
}
use dropout.Bridge.Keys.Secured.{Secured, NonEmpty, key_in, key_at, secured, setup_clients-Secured}
use mathlib.Core.Path.{subst}

-- The numbers of the clients, in their order.
abbrev NumberedBy : List ℕ → Session → Type 0
NumberedBy ids s = keys s.round.clients ≡ ids

numbered :
    (ids : List ℕ) → IsKeyInvariant (NumberedBy ids) (λ k c. is_listed k ids ≡ true) (λ _. Unit)
numbered ids = record {
  found = λ k c s h e. subst (λ js. is_listed k js ≡ true) h (is_listed-keys k s.round.clients e);
  set_secret = λ k c secret s _ listed h. kept k _ s listed h;
  set_seeds = λ k c seeds s listed h. kept k _ s listed h;
  set_io = λ io s h. h;
  set_stage = λ stage s h. h;
}
  where
    kept :
        (k : ℕ) (c : ClientState) (s : Session)
        → is_listed k ids ≡ true
        → NumberedBy ids s
        → NumberedBy ids (set_client k c s)
    kept k c s listed h =
        keys-insert k c s.round.clients (subst (λ js. is_listed k js ≡ true) (sym h) listed) ∙ h

module _ (platform : Platform) where
  finish : List ℕ → Exec Session Unit
  finish ids =
      for_each ids (derive_seeds_of platform ids)
      >> modify (λ s. record s { round = record s.round { stage = mask_setup } })

  finish-Seeded :
      (ids : List ℕ) (s s' : Session)
      → finish ids s ≡ (ok tt, s')
      → All (λ k. SeededAll platform ids k s') ids
  unfolding finish SeededAll
  finish-Seeded ids s s' run =
      let (u, (looped, last)) =
        bind-eq-ok (for_each ids (derive_seeds_of platform ids)) _ s s' run in
      subst (λ x. All (λ k. SeededAll platform ids k x) ids) (ap (λ r. r.1) last)
        (for_each-All (SeededAll platform ids) (derive_seeds_of platform ids)
          (derive_seeds_of-SeededAll platform ids) (derive_seeds_of-SeededAll-Keeps platform ids)
          ids s _ (ap (λ r. (r, (for_each ids (derive_seeds_of platform ids) s).1)) looped))

  setup_keys_and_masks-Seeded :
      (s s' : Session)
      → setup_keys_and_masks platform s ≡ (ok tt, s')
      → All (λ k. SeededAll platform (keys s.round.clients) k s') (keys s.round.clients)
  unfolding setup_keys_and_masks finish
  setup_keys_and_masks-Seeded s s' run =
      let ids = keys s.round.clients in
      let (_, (_, r1)) = bind-eq-ok (for_each ids (setup_client platform)) _ s s' run in
      let (_, (_, r2)) = bind-eq-ok (for_each_pair platform ids (setup_pair platform)) _ _ s' r1 in
      let (_, (_, r3)) = bind-eq-ok (orchestrate_pairwise_kem platform) _ _ s' r2 in
      finish-Seeded ids _ s' r3

  listed :
      (s s' : Session)
      → setup_keys_and_masks platform s ≡ (ok tt, s')
      → (k : ℕ) (c : ClientState) → lookup k s'.round.clients ≡ some c
      → is_listed k (keys s.round.clients) ≡ true
  listed s s' run k c e =
      subst (λ js. is_listed k js ≡ true) kept (is_listed-keys k s'.round.clients e)
    where
      kept : keys s'.round.clients ≡ keys s.round.clients
      kept =
          subst (λ r. keys r.1.round.clients ≡ keys s.round.clients) run
            ((setup_keys_and_masks-Keeps platform (numbered (keys s.round.clients))
                (λ _ _ _ _ _. tt)).at
              s refl)

  setup_keys_and_masks-Secured :
      Draws platform NonEmpty
      → (s s' : Session) → setup_keys_and_masks platform s ≡ (ok tt, s')
      → All (λ k. Secured k s') (keys s.round.clients)
  unfolding setup_keys_and_masks after_clients
  setup_keys_and_masks-Secured draws s s' run =
      let ids = keys s.round.clients in
      let (_, (first, rest)) = bind-eq-ok (for_each ids (setup_client platform)) _ s s' run in
      let secured_first =
        setup_clients-Secured platform draws ids s _
          (ap (λ r. (r, (for_each ids (setup_client platform) s).1)) first) in
      subst (λ r. All (λ k. Secured k r.1) ids) rest
        ((Keeps-All ids (after_clients platform ids)
            (λ k. after_clients-Keeps platform (secured k) draws ids)).at
          _ secured_first)

  -- The seed that the first of two different clients holds.
  one-HoldsSeed :
      Draws platform NonEmpty
      → (s s' : Session) → setup_keys_and_masks platform s ≡ (ok tt, s')
      → (k p : ℕ) → (k == p) ≡ false
      → is_set (key_at k s') ≡ true
      → is_set (key_at p s') ≡ true
      → HoldsSeed platform k p s'
  unfolding SeededAll
  one-HoldsSeed draws s s' run k p ne hk hp =
      let ids = keys s.round.clients in
      let at_k = present k hk in
      let at_p = present p hp in
      let row : All (λ q. Seeded platform k q s') ids =
        All-is_listed _ k ids (setup_keys_and_masks-Seeded s s' run) at_k in
      All-is_listed _ p ids row at_p ne (has_secret k at_k hk) (has_secret p at_p hp)
    where
      has_secret : (j : ℕ) → is_listed j (keys s.round.clients) ≡ true → Secured j s'
      has_secret j =
          All-is_listed (λ i. Secured i s') j _ (setup_keys_and_masks-Secured draws s s' run)

      present : (j : ℕ) → is_set (key_at j s') ≡ true → is_listed j (keys s.round.clients) ≡ true
      present j h = elim (Option-cases (lookup j s'.round.clients)) [
        | inl e ↦ let missing : false ≡ true = sym (ap is_set (ap key_in e)) ∙ h in absurd cc
        | inr (c, e) ↦ listed s s' run j c e
      ]

  -- Where no encapsulation returns an empty secret: when `_setup_keys_and_masks` returns, of two
  -- different clients with public keys each has a shared secret and holds a seed for the other. It is
  -- the one that `derive_pairwise_mask_seed` gives for the client's own secret, the two numbers in
  -- ascending order and the number of the round.
  pub setup_keys_and_masks-HoldsSeed :
      Draws platform NonEmpty
      → (s s' : Session) → setup_keys_and_masks platform s ≡ (ok tt, s')
      → (k p : ℕ) → (k == p) ≡ false
      → is_set (key_at k s') ≡ true
      → is_set (key_at p s') ≡ true
      → HoldsSeed platform k p s' × HoldsSeed platform p k s'
  setup_keys_and_masks-HoldsSeed draws s s' run k p ne hk hp =
      let other : (p == k) ≡ false = ground arith in
      (one-HoldsSeed draws s s' run k p ne hk hp, one-HoldsSeed draws s s' run p k other hp hk)
