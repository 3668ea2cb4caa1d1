-- ===== src/Bridge/Fedavg/Average.antt =====
-- `_compute_fedavg` computes the weighted average of the values that it is given.
use dropout.Prelude.{
  ℕ, zero, suc, ◌+◌, ◌*◌, ◌/◌, ◌%◌, ◌<◌, ◌≤◌, ◌≡◌, ◌∙◌, arith, false, Option, none, some, List, [],
  ◌∷◌, ◌==◌, if◌then◌else◌, inl, inr, Bool-cases, get_or,
}
use dropout.Prelude.Int.{ℤ, pos, ◌+ℤ◌, ◌*ℤ◌, ◌%ℤ◌}
use dropout.Prelude.Dict.{Dict, lookup, lookup-insert}
use dropout.Prelude.Exec.{ok, and_then-eq-ok, ok_injective}
use mathlib.Core.Path.{subst}
use dropout.Field.{residue-lt}
use dropout.Bridge.State.{ClientState, RoundState}
use dropout.Bridge.Aggregate.{num_chunks_of, zero_chunks, add_values, chunk_of, weight_of}
use dropout.Bridge.Aggregate.Spec.{value_at}
use dropout.Bridge.Aggregate.Sums.{
  Adds, Adds-zero, Adds-trans, zero-weight, add_values_at, chunk_of-eq-ok,
}
use dropout.Bridge.Aggregate.Average.{value_at-zero_chunks, num_chunks_of-eq, average_back}
use dropout.Bridge.Fedavg.{
  unmasked_total, add_unmasked_chunk, add_unmasked_chunks, add_unmasked_client, add_unmasked,
  compute_fedavg,
}

-- The value at a position; 0 where there is none.
abbrev pub value_of : ℕ → Option (List ℤ) → ℤ
value_of j none = pos 0
value_of j (some values) = get_or values j (pos 0)

module _ (seq_num j : ℕ) where
  abbrev pub unmasked_client : Option ClientState → Dict (List ℤ) → ℤ
  unmasked_client none values = pos 0
  unmasked_client (some c) values =
      if c.completed then value_of j (lookup seq_num values) *ℤ pos (weight_of c) else pos 0

  -- Value times weight, over the completed clients.
  abbrev pub unmasked_sum : Dict ClientState → Dict (Dict (List ℤ)) → ℤ
  unmasked_sum clients [] = pos 0
  unmasked_sum clients ((client_id, values) ∷ unmasked) =
      unmasked_client (lookup client_id clients) values +ℤ unmasked_sum clients unmasked

  chunk-Adds :
      (weight : ℕ) (o : Option (List ℤ)) (k : ℕ) (chunks chunks' : Dict (List ℕ))
      → add_unmasked_chunk weight o k chunks ≡ ok chunks'
      → Adds seq_num j chunks (if k == seq_num then value_of j o *ℤ pos weight else pos 0) chunks'
  unfolding add_unmasked_chunk
  chunk-Adds weight none k chunks chunks' h =
      rw (← ok_injective h) (ground (arith, zero-weight weight))
  chunk-Adds weight (some values) k chunks chunks' h =
      let (acc, l, h1) = and_then-eq-ok (chunk_of k chunks) _ h in
      let (out, a, h2) = and_then-eq-ok (add_values weight values acc) _ h1 in
      let at = chunk_of-eq-ok k chunks acc l in
      rw (← ok_injective h2) (
        ground (arith, lookup-insert k seq_num out chunks, add_values_at weight values acc out j a))

  past-Adds :
      (weight : ℕ) (values : Dict (List ℤ)) (i left : ℕ) (chunks chunks' : Dict (List ℕ))
      → seq_num < i
      → add_unmasked_chunks weight values i left chunks ≡ ok chunks'
      → Adds seq_num j chunks (pos 0) chunks'
  unfolding add_unmasked_chunks
  past-Adds weight values i zero chunks chunks' past h =
      rw (← ok_injective h) (Adds-zero seq_num j chunks)
  past-Adds weight values i (suc left) chunks chunks' past h =
      let (mid, first, h1) =
        and_then-eq-ok (add_unmasked_chunk weight (lookup i values) i chunks) _ h in
      let other : (i == seq_num) ≡ false = ground arith in
      let unchanged = rw other at (chunk-Adds weight (lookup i values) i chunks mid first) in
      omega (arith, past-Adds weight values (suc i) left mid chunks' (omega arith) h1)

  chunks-Adds :
      (weight : ℕ) (values : Dict (List ℤ)) (i left : ℕ) (chunks chunks' : Dict (List ℕ))
      → i ≤ seq_num
      → seq_num < i + left
      → add_unmasked_chunks weight values i left chunks ≡ ok chunks'
      → Adds seq_num j chunks (value_of j (lookup seq_num values) *ℤ pos weight) chunks'
  unfolding add_unmasked_chunks
  chunks-Adds weight values i zero chunks chunks' lo hi h = absurd (omega arith)
  chunks-Adds weight values i (suc left) chunks chunks' lo hi h =
      let (mid, first, h1) =
        and_then-eq-ok (add_unmasked_chunk weight (lookup i values) i chunks) _ h in
      let step = chunk-Adds weight (lookup i values) i chunks mid first in
      elim (Bool-cases (i == seq_num)) [
        | inl e ↦
            let same : i ≡ seq_num = ground arith in
            let here =
              subst (λ k. Adds seq_num j chunks (value_of j (lookup k values) *ℤ pos weight) mid)
                same (rw e at step) in
            let later = past-Adds weight values (suc i) left mid chunks' (ground arith) h1 in
            omega arith
        | inr e ↦
            let unchanged = rw e at step in
            let later =
              chunks-Adds weight values (suc i) left mid chunks' (ground arith) (omega arith) h1 in
            omega arith
      ]

  client-Adds :
      (nc : ℕ) (c : Option ClientState) (values : Dict (List ℤ)) (chunks chunks' : Dict (List ℕ))
      → seq_num < nc
      → add_unmasked_client nc c values chunks ≡ ok chunks'
      → Adds seq_num j chunks (unmasked_client c values) chunks'
  unfolding add_unmasked_client
  client-Adds nc none values chunks chunks' fits h =
      rw (← ok_injective h) (Adds-zero seq_num j chunks)
  client-Adds nc (some c) values chunks chunks' fits h = elim (Bool-cases c.completed) [
    | inl e ↦ rw e (
        chunks-Adds (weight_of c) values 0 nc chunks chunks' (omega arith) (omega arith)
          (rw e at h))
    | inr e ↦ rw (e, ← ok_injective (rw e at h)) (Adds-zero seq_num j chunks)
  ]

  unmasked-Adds :
      (nc : ℕ) (clients : Dict ClientState) (unmasked : Dict (Dict (List ℤ)))
      (chunks chunks' : Dict (List ℕ))
      → seq_num < nc
      → add_unmasked nc clients unmasked chunks ≡ ok chunks'
      → Adds seq_num j chunks (unmasked_sum clients unmasked) chunks'
  unfolding add_unmasked
  unmasked-Adds nc clients [] chunks chunks' fits h =
      rw (← ok_injective h) (Adds-zero seq_num j chunks)
  unmasked-Adds nc clients ((client_id, values) ∷ unmasked) chunks chunks' fits h =
      let c = lookup client_id clients in
      let (mid, first, h1) = and_then-eq-ok (add_unmasked_client nc c values chunks) _ h in
      Adds-trans seq_num j chunks mid chunks' _ _ (client-Adds nc c values chunks mid fits first)
        (unmasked-Adds nc clients unmasked mid chunks' fits h1)

-- When `_compute_fedavg` returns and 3329 does not divide the number of samples of the clients whose
-- values it is given, every element of the result, times that number, is in GF(3329) the sum of
-- value times weight over the completed ones of these clients.
pub compute_fedavg_average :
    (round : RoundState) (unmasked : Dict (Dict (List ℤ))) (result : Dict (List ℕ)) (seq_num j : ℕ)
    → compute_fedavg round unmasked ≡ ok result
    → seq_num < round.model_size / round.chunk_size
    → 0 < unmasked_total unmasked round.clients % 3329
    → value_at seq_num j result * unmasked_total unmasked round.clients % 3329
      ≡ unmasked_sum seq_num j round.clients unmasked %ℤ 3329
unfolding compute_fedavg
compute_fedavg_average round unmasked result seq_num j h fits unit =
    let (nc, e, h1) = and_then-eq-ok (num_chunks_of round.model_size round.chunk_size) _ h in
    let start = zero_chunks 0 nc round.chunk_size in
    let (chunks, s, h2) = and_then-eq-ok (add_unmasked nc round.clients unmasked start) _ h1 in
    let total = unmasked_total unmasked round.clients in
    let below : seq_num < nc =
      omega (arith, num_chunks_of-eq round.model_size round.chunk_size nc e) in
    let added = unmasked-Adds seq_num j nc round.clients unmasked start chunks below s in
    rw (← ok_injective h2) (
      average_back seq_num j total chunks unit
      ∙ omega (
        arith,
        added,
        value_at-zero_chunks seq_num j 0 nc round.chunk_size,
        residue-lt (unmasked_sum seq_num j round.clients unmasked),
      ))
