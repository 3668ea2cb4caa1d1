-- ===== src/Bridge/Fedavg/Covers.antt =====
-- `_compute_fedavg` has a chunk for every number below model_size // chunk_size.
use dropout.Prelude.{
  ℕ, zero, suc, ◌+◌, ◌<◌, ◌≤◌, ◌≡◌, refl, arith, true, Option, none, some, List, [], ◌∷◌, ◌==◌, ltb,
  inl, inr, Bool-cases,
}
use dropout.Prelude.Int.{ℤ}
use dropout.Prelude.Dict.{Dict, lookup, insert, contains, lookup-insert}
use dropout.Prelude.Exec.{ok, and_then-eq-ok, ok_injective}
use dropout.Bridge.State.{ClientState, RoundState}
use dropout.Bridge.Aggregate.{
  num_chunks_of, zero_chunks, add_values, chunk_of, weight_of, scale, average,
}
use dropout.Bridge.Fedavg.{
  unmasked_total, add_unmasked_chunk, add_unmasked_chunks, add_unmasked_client, add_unmasked,
  compute_fedavg,
}

contains-zero_chunks :
    (k i left ce : ℕ) → i ≤ k → k < i + left → contains k (zero_chunks i left ce) ≡ true
unfolding zero_chunks lookup
contains-zero_chunks k i zero ce lo hi = absurd (omega arith)
contains-zero_chunks k i (suc left) ce lo hi = elim (Bool-cases (i == k)) [
  | inl e ↦ rw (contains, e)
  | inr e ↦ rw (contains, e) (contains-zero_chunks k (suc i) left ce (ground arith) (omega arith))
]

contains-scale :
    (k inv : ℕ) (chunks : Dict (List ℕ)) → contains k (scale inv chunks) ≡ contains k chunks
unfolding scale lookup
contains-scale k inv [] = refl
contains-scale k inv ((i, l) ∷ chunks) = elim (Bool-cases (i == k)) [
  | inl e ↦ rw (contains, e)
  | inr e ↦ rw (contains, e) (contains-scale k inv chunks)
]

module _ (k : ℕ) where
  contains-average :
      (total : ℕ) (chunks : Dict (List ℕ)) → contains k (average total chunks) ≡ contains k chunks
  contains-average total chunks = elim (Bool-cases (ltb 1 total)) [
    | inl e ↦ rw (e, contains-scale)
    | inr e ↦ rw e
  ]

  contains-insert :
      (j : ℕ) (l : List ℕ) (chunks : Dict (List ℕ))
      → contains k chunks ≡ true
      → contains k (insert j l chunks) ≡ true
  contains-insert j l chunks h = elim (Bool-cases (j == k)) [
    | inl e ↦ rw (contains, lookup-insert j k l chunks, e)
    | inr e ↦ rw (contains, lookup-insert j k l chunks, e) h
  ]

  chunk-contains :
      (weight : ℕ) (o : Option (List ℤ)) (j : ℕ) (chunks chunks' : Dict (List ℕ))
      → contains k chunks ≡ true
      → add_unmasked_chunk weight o j chunks ≡ ok chunks'
      → contains k chunks' ≡ true
  unfolding add_unmasked_chunk
  chunk-contains weight none j chunks chunks' c h = rw (← ok_injective h) c
  chunk-contains weight (some values) j chunks chunks' c h =
      let (acc, l, h1) = and_then-eq-ok (chunk_of j chunks) _ h in
      let (out, a, h2) = and_then-eq-ok (add_values weight values acc) _ h1 in
      rw (← ok_injective h2) (contains-insert j out chunks c)

  chunks-contains :
      (weight : ℕ) (values : Dict (List ℤ)) (i left : ℕ) (chunks chunks' : Dict (List ℕ))
      → contains k chunks ≡ true
      → add_unmasked_chunks weight values i left chunks ≡ ok chunks'
      → contains k chunks' ≡ true
  unfolding add_unmasked_chunks
  chunks-contains weight values i zero chunks chunks' c h = rw (← ok_injective h) c
  chunks-contains weight values i (suc left) chunks chunks' c h =
      let (mid, first, h1) =
        and_then-eq-ok (add_unmasked_chunk weight (lookup i values) i chunks) _ h in
      chunks-contains weight values (suc i) left mid chunks'
        (chunk-contains weight (lookup i values) i chunks mid c first) h1

  client-contains :
      (n : ℕ) (o : Option ClientState) (values : Dict (List ℤ)) (chunks chunks' : Dict (List ℕ))
      → contains k chunks ≡ true
      → add_unmasked_client n o values chunks ≡ ok chunks'
      → contains k chunks' ≡ true
  unfolding add_unmasked_client
  client-contains n none values chunks chunks' c h = rw (← ok_injective h) c
  client-contains n (some state) values chunks chunks' c h = elim (Bool-cases state.completed) [
    | inl e ↦ let h1 = rw e at h in chunks-contains (weight_of state) values 0 n chunks chunks' c h1
    | inr e ↦ let h1 = rw e at h in rw (← ok_injective h1) c
  ]

  unmasked-contains :
      (n : ℕ) (clients : Dict ClientState) (unmasked : Dict (Dict (List ℤ)))
      (chunks chunks' : Dict (List ℕ))
      → contains k chunks ≡ true
      → add_unmasked n clients unmasked chunks ≡ ok chunks'
      → contains k chunks' ≡ true
  unfolding add_unmasked
  unmasked-contains n clients [] chunks chunks' c h = rw (← ok_injective h) c
  unmasked-contains n clients ((id, values) ∷ unmasked) chunks chunks' c h =
      let (mid, first, h1) =
        and_then-eq-ok (add_unmasked_client n (lookup id clients) values chunks) _ h in
      unmasked-contains n clients unmasked mid chunks'
        (client-contains n (lookup id clients) values chunks mid c first) h1

-- Every chunk of the round is in the result.
pub contains-compute_fedavg :
    (round : RoundState) (unmasked : Dict (Dict (List ℤ))) (chunks : Dict (List ℕ)) (n k : ℕ)
    → num_chunks_of round.model_size round.chunk_size ≡ ok n
    → compute_fedavg round unmasked ≡ ok chunks
    → k < n
    → contains k chunks ≡ true
unfolding compute_fedavg
contains-compute_fedavg round unmasked chunks n k e h below =
    let h1 = rw e at h in
    let (sums, added, h2) =
      and_then-eq-ok (add_unmasked n round.clients unmasked (zero_chunks 0 n round.chunk_size)) _
        h1 in
    rw (← ok_injective h2, contains-average k (unmasked_total unmasked round.clients) sums)
      (unmasked-contains k n round.clients unmasked (zero_chunks 0 n round.chunk_size) sums
        (contains-zero_chunks k 0 n round.chunk_size (omega arith) (omega arith)) added)
