-- ===== src/Bridge/Round/Completes.antt =====
-- The whole end of a round without dropouts: key setup, aggregation and the result to every writer.
use dropout.Prelude.{
  ℕ, ◌/◌, ◌<◌, ◌≤◌, ◌≡◌, refl, sym, ap, ◌∙◌, arith, true, false, ◌&&◌, [], length, All,
}
use dropout.Prelude.Int.{pos, sub_ℕ, leb_ℤ}
use dropout.Prelude.Dict.{keys, AllValues}
use dropout.Prelude.Exec.{ok, Exec, continue, for_each, ◌>>=◌, ◌>>◌}
use dropout.Platform.{Platform}
use dropout.Field.Shape.{IsShaped}
use dropout.Bridge.State.{RoundState, Session, unmasking, round_complete}
use dropout.Bridge.Aggregate.{finalize_aggregation, count_completed}
use dropout.Bridge.Aggregate.Totality.{any_recovered, ChunksFit, finalize_aggregation_total}
use dropout.Bridge.Aggregate.Average.{finalize_aggregation-same}
use dropout.Bridge.Keys.{setup_keys_and_masks}
use dropout.Bridge.Keys.Keeps.{IsKeyInvariant, setup_keys_and_masks-Keeps}
use dropout.Bridge.Keys.Fits.{SessionFits, setup_keys_and_masks-fits}
use dropout.Bridge.Keys.Secured.{key_at}
use dropout.Bridge.Keys.Total.{IsWorking}
use dropout.Bridge.Keys.Total.Setup.{setup_keys_and_masks_total}
use dropout.Bridge.Round.{
  trigger_recovery, aggregate, publish, unmask_and_aggregate, check_round_completion,
}
use dropout.Bridge.Round.Sends.{IsSendable, publish-Returns}
use mathlib.Core.Path.{subst}

-- The sizes and numbers of the round fit its messages, and the received chunks its size; the
-- encapsulation and the connections work.
pub record IsSound (platform : Platform) (s : Session) : Type 0 where
  pub working : IsWorking platform (λ k. key_at k s)
  pub small_clients : All (λ k. k < 256) (keys s.round.clients)
  pub small_round : s.round.round_id < 4294967296
  pub positive : 0 < s.round.chunk_size
  pub short : s.round.chunk_size < 32738
  pub few : s.round.model_size / s.round.chunk_size ≤ 65536
  pub fit : AllValues (ChunksFit s.round.chunk_size) s.round.clients

-- What key setup leaves of the round.
abbrev Sized : RoundState → Session → Type 0
Sized r s =
    (s.round.dropout_clients ≡ r.dropout_clients)
    × ((s.round.model_size ≡ r.model_size) × (s.round.round_id ≡ r.round_id))

sized : (r : RoundState) → IsKeyInvariant (Sized r) (λ k c. Unit) (λ _. Unit)
sized r = record {
  found = λ k c s h e. tt;
  set_secret = λ k c secret s _ _ h. h;
  set_seeds = λ k c seeds s _ h. h;
  set_io = λ io s h. h;
  set_stage = λ stage s h. h;
}

done-test :
    (e t c : ℕ) → t ≤ e → e ≤ c → (leb_ℤ (sub_ℕ e 0) (pos c) && leb_ℤ (pos t) (sub_ℕ e 0)) ≡ true
done-test e t c enough done = ground arith

bind_ok :
    {A B : Type 0} (m : Exec Session A) (f : A → Exec Session B) (s s' : Session) (a : A)
    → m s ≡ (ok a, s')
    → (m >>= f) s ≡ f a s'
bind_ok m f s s' a e = ap (λ run. continue run.0 f run.1) e

module _ (platform : Platform) where
  no_recovery :
      (s : Session) → s.round.dropout_clients ≡ [] → trigger_recovery platform s ≡ (ok tt, s)
  unfolding trigger_recovery for_each
  no_recovery s no_dropout = rw (trigger_recovery, no_dropout) refl

  aggregated :
      (s : Session) (round : RoundState)
      → finalize_aggregation s.round ≡ ok round
      → aggregate platform s ≡ (ok tt, record s { round = round })
  unfolding aggregate
  aggregated s round e = rw (aggregate, e) refl

  -- What follows the key setup.
  after_setup_total :
      (s : Session)
      → s.round.dropout_clients ≡ []
      → s.round.round_id < 4294967296
      → 0 < s.round.chunk_size
      → s.round.chunk_size < 32738
      → s.round.model_size / s.round.chunk_size ≤ 65536
      → AllValues (ChunksFit s.round.chunk_size) s.round.clients
      → ((writer : ℕ) → platform.connection_lost writer ≡ false)
      → (s' : Session) × ((trigger_recovery platform >> (aggregate platform >> publish platform)) s
          ≡ (ok tt, s'))
        × (s'.round.stage ≡ round_complete)
        × IsShaped
            (s.round.model_size / s.round.chunk_size)
            s.round.chunk_size
            s'.round.unmasked_chunks
  after_setup_total s no_dropout small positive short few fit connected =
      let none_recovered : any_recovered s.round.clients s.round.dropout_clients ≡ false =
        rw no_dropout refl in
      let (r, total, shaped, complete) =
        finalize_aggregation_total s.round positive fit none_recovered in
      let id_same = finalize_aggregation-same (λ x. x.round_id) s.round r (λ _. refl) total in
      let chunk_same = finalize_aggregation-same (λ x. x.chunk_size) s.round r (λ _. refl) total in
      let model_same = finalize_aggregation-same (λ x. x.model_size) s.round r (λ _. refl) total in
      let sendable : IsSendable r = record {
        small_round = rw id_same small;
        positive = rw chunk_same positive;
        short = rw chunk_same short;
        few = rw (model_same, chunk_same) few;
        shaped = rw (model_same, chunk_same) shaped;
      } in
      let aggregated_session : Session = record s { round = r } in
      let (u, sent, kept) =
        (publish-Returns platform r sendable connected).at aggregated_session refl in
      (
        (publish platform aggregated_session).1,
        bind_ok (trigger_recovery platform) (λ _. aggregate platform >> publish platform) s s tt
              (no_recovery s no_dropout)
            ∙ bind_ok (aggregate platform) (λ _. publish platform) s aggregated_session tt
                (aggregated s r total)
            ∙ ap (λ a. (a, (publish platform aggregated_session).1)) sent,
        ap (λ x. x.stage) kept ∙ complete,
        subst
            (λ x.
              IsShaped (s.round.model_size / s.round.chunk_size) s.round.chunk_size
                x.unmasked_chunks)
            (sym kept) shaped,
      )

  -- Where no client has dropped out, `_unmask_and_aggregate` returns.
  pub unmask_and_aggregate_total :
      (s : Session)
      → IsSound platform s
      → s.round.dropout_clients ≡ []
      → (s' : Session) × (unmask_and_aggregate platform s ≡ (ok tt, s'))
        × (s'.round.stage ≡ round_complete)
        × IsShaped
            (s.round.model_size / s.round.chunk_size)
            s.round.chunk_size
            s'.round.unmasked_chunks
  unfolding unmask_and_aggregate
  unmask_and_aggregate_total s sound no_dropout =
      let (s1, setup, same_keys, same_public) =
        setup_keys_and_masks_total platform s sound.working sound.small_round sound.small_clients in
      let sizes : Sized s.round s1 =
        subst (λ run. Sized s.round run.1) setup
          ((setup_keys_and_masks-Keeps platform (sized s.round) (λ _ _ _ _ _. tt)).at s
            (refl, (refl, refl))) in
      let fits : SessionFits s.round.chunk_size s1 =
        subst (λ run. SessionFits s.round.chunk_size run.1) setup
          ((setup_keys_and_masks-fits platform).at s (refl, sound.fit)) in
      let (s2, ran, complete, shaped) =
        after_setup_total s1 (sizes.0 ∙ no_dropout) (rw sizes.1.1 sound.small_round)
          (rw fits.0 sound.positive) (rw fits.0 sound.short) (rw (sizes.1.0, fits.0) sound.few)
          (rw fits.0 fits.1) sound.working.connected in
      (
        s2,
        bind_ok (setup_keys_and_masks platform)
              (λ _. trigger_recovery platform >> (aggregate platform >> publish platform)) s s1 tt
              setup
            ∙ ran,
        complete,
        subst (λ n. IsShaped (s.round.model_size / n) n s2.round.unmasked_chunks) fits.0
            (subst
              (λ m. IsShaped (m / s1.round.chunk_size) s1.round.chunk_size s2.round.unmasked_chunks)
              sizes.1.0 shaped),
      )

  unmasks :
      (unmask : Exec Session Unit) (s : Session)
      → s.round.dropout_clients ≡ []
      → s.round.threshold ≤ s.round.expected_clients
      → s.round.expected_clients ≤ count_completed s.round.clients
      → check_round_completion platform unmask s
        ≡ unmask (record s { round = record s.round { stage = unmasking } })
  unfolding check_round_completion
  unmasks unmask s no_dropout enough done =
      let all_left : length s.round.dropout_clients ≡ 0 = rw no_dropout refl in
      let ready =
        done-test s.round.expected_clients s.round.threshold (count_completed s.round.clients)
          enough done in
      rw (check_round_completion, all_left, ready) refl

  -- For a round whose number, whose clients' numbers, whose chunk size (below 32738) and whose
  -- number of chunks (at most 65536) fit its messages, and whose received chunks all have its
  -- length, where the encapsulation returns for the public key of each client, with a ciphertext
  -- that fits a message, and no connection is lost: if no client has dropped out, the threshold is
  -- at most the number of the expected clients and as many have completed,
  -- `_check_round_completion` raises nothing. The round ends complete, and each of its chunks has
  -- `chunk_size` elements below 3329.
  pub check_round_completion_completes :
      (s : Session)
      → IsSound platform s
      → s.round.dropout_clients ≡ []
      → s.round.threshold ≤ s.round.expected_clients
      → s.round.expected_clients ≤ count_completed s.round.clients
      → (s' : Session) × (check_round_completion platform (unmask_and_aggregate platform) s
          ≡ (ok tt, s'))
        × (s'.round.stage ≡ round_complete)
        × IsShaped
            (s.round.model_size / s.round.chunk_size)
            s.round.chunk_size
            s'.round.unmasked_chunks
  check_round_completion_completes s sound no_dropout enough done =
      let started : Session = record s { round = record s.round { stage = unmasking } } in
      let started_sound : IsSound platform started = record {
        working = sound.working;
        small_clients = sound.small_clients;
        small_round = sound.small_round;
        positive = sound.positive;
        short = sound.short;
        few = sound.few;
        fit = sound.fit;
      } in
      let (s', run, complete, shaped) =
        unmask_and_aggregate_total started started_sound no_dropout in
      (s', unmasks (unmask_and_aggregate platform) s no_dropout enough done ∙ run, complete, shaped)
